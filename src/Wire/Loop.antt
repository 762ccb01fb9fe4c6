-- ===== src/Wire/Loop.antt =====
-- `for len(buf) > 0 { num, wtype, n := protowire.ConsumeTag(buf); … }`: the loop of every decoder.
use ioswarm.Common.{ℕ, zero, suc, [], ◌∷◌, Bytes, drop, length, Result, ok, err, ◌>>=◌, or_err}
use ioswarm.Wire.Defs.{WireType, Protowire}

-- `field` handles one field behind its tag, and returns the message so far and the bytes left.
-- The loop has fuel, and `exhausted` is no value of the program: the fuel ran out.
module _ {E A : Type 0} (w : Protowire) (exhausted : E) (bad_tag : Bytes → E)
    (field : A → ℕ → WireType → Bytes → Result E (A × Bytes)) where
  unfoldable pub message_loop : ℕ → Bytes → A → Result E A
  message_loop fuel [] acc = ok acc
  message_loop zero (b ∷ bs) acc = err exhausted
  message_loop (suc fuel) (b ∷ bs) acc = do
    (num, wtype, n) ← or_err (w.consume_tag (b ∷ bs)) (bad_tag (b ∷ bs))
    (acc', rest) ← field acc num wtype (drop n (b ∷ bs))
    message_loop fuel rest acc'

  -- A tag takes a byte at least, so as many rounds as there are bytes are enough.
  unfoldable pub message : Bytes → A → Result E A
  unfolding message_loop
  message data_bytes acc = message_loop (length data_bytes) data_bytes acc
