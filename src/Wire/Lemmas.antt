-- ===== src/Wire/Lemmas.antt =====
-- The loop ends, and it steps over the fields that were appended.
use ioswarm.Common.{
  ℕ, zero, suc, ◌≤◌, ◌≡◌, ◌≢◌, inl, inr, some, [], ◌∷◌, arith, Bytes, drop, length, length-drop,
  Result, ◌>>=◌, ok, err, Option-cases, Result-cases,
}
use ioswarm.Wire.Defs.{WireType, Protowire, HasProgress}
use ioswarm.Wire.Loop.{message_loop, message}

module _ {E A : Type 0} (w : Protowire) (exhausted : E) (bad_tag : Bytes → E)
    (field : A → ℕ → WireType → Bytes → Result E (A × Bytes)) where
  -- A field never gives bytes back, and no error of the program is the mark of the fuel.
  pub record IsShrinking : Type 0 where
    pub shrinks :
        (acc : A) (num : ℕ) (t : WireType) (buf : Bytes) (acc' : A) (rest : Bytes)
        → field acc num t buf ≡ ok (acc', rest)
        → length rest ≤ length buf
    pub field_ends :
        (acc : A) (num : ℕ) (t : WireType) (buf : Bytes) → field acc num t buf ≢ err exhausted
    pub tag_ends : (buf : Bytes) → bad_tag buf ≢ exhausted

module _ {E A : Type 0} (w : Protowire) (exhausted : E) (bad_tag : Bytes → E)
    (field : A → ℕ → WireType → Bytes → Result E (A × Bytes)) where
  abbrev wrapped : E → Result E A
  wrapped e = err e

  err_injective : (e e' : E) → wrapped e ≡ wrapped e' → e ≡ e'
  err_injective e e' p = cc

  pub message_loop_ends :
      HasProgress w
      → IsShrinking w exhausted bad_tag field
      → (fuel : ℕ) (buf : Bytes) (acc : A) → length buf ≤ fuel
      → message_loop w exhausted bad_tag field fuel buf acc ≢ err exhausted
  unfolding message_loop
  message_loop_ends p s fuel [] acc h = λ e. cc
  message_loop_ends p s zero (b ∷ bs) acc h = absurd (omega arith)
  message_loop_ends p s (suc fuel) (b ∷ bs) acc h = elim (Option-cases (w.consume_tag (b ∷ bs))) [
    | inl e ↦ rw e (λ q. s.tag_ends (b ∷ bs) (err_injective _ _ q))
    | inr ((num, t, n), e) ↦ rw e (elim (Result-cases (field acc num t (drop n (b ∷ bs)))) [
      | inl ((acc', rest), f) ↦ rw f (
          message_loop_ends p s fuel rest acc' (
            omega (
              arith,
              p.tag_takes (b ∷ bs) num t n e,
              s.shrinks acc num t (drop n (b ∷ bs)) acc' rest f,
              length-drop n (b ∷ bs),
            )))
      | inr (x, f) ↦
          rw f (λ q. s.field_ends acc num t (drop n (b ∷ bs)) (rw (err_injective _ _ q) at f))
    ])
  ]

  pub message_ends :
      HasProgress w
      → IsShrinking w exhausted bad_tag field
      → (buf : Bytes) (acc : A) → message w exhausted bad_tag field buf acc ≢ err exhausted
  unfolding message
  message_ends p s buf acc = message_loop_ends p s (length buf) buf acc (omega arith)

  -- One round on a tag that is read.
  pub message_loop_step :
      (fuel : ℕ) (buf : Bytes) (num : ℕ) (t : WireType) (n : ℕ) (acc : A)
      → 1 ≤ length buf
      → w.consume_tag buf ≡ some (num, t, n)
      → message_loop w exhausted bad_tag field (suc fuel) buf acc ≡ (
          field acc num t (drop n buf) >>= λ r. message_loop w exhausted bad_tag field fuel r.1 r.0)
  unfolding message_loop
  message_loop_step fuel [] num t n acc h e = absurd (omega arith)
  message_loop_step fuel (b ∷ bs) num t n acc h e = rw e (ground arith)
