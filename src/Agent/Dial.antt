-- ===== src/Agent/Dial.antt =====
-- When a worker's connection is secured.
use ioswarm.Common.{
  ◌≡◌, ◌≢◌, ◌⊎◌, inl, inr, [], ◌∷◌, refl, sym, ◌∙◌, Option, none, some, Bytes, codes, Bool, true,
  false, ◌&&◌, ◌||◌, not, ◌==◌, if◌then◌else◌, length, arith,
}
use ioswarm.Common.Text.{has_suffix}
use ioswarm.Agent.Worker.{
  WorkerConfig, Transport, tls_from_file, tls_system, insecure, AgentCred, tls_of, transport_of,
  dial_options, worker_dial,
}

abbrev pub is_secure : Transport → Bool
is_secure (tls_from_file cert) = true
is_secure tls_system = true
is_secure insecure = false

-- TLS is asked for by a flag or a certificate, or the coordinator's port is that of HTTPS.
abbrev pub wants_tls : WorkerConfig → Bool
wants_tls cfg =
    cfg.use_tls || (not (length cfg.tls_cert == 0) || has_suffix cfg.coordinator (codes ":443"))

transport_secure :
    (no_cert use_tls port : Bool) (cert : Bytes)
    → is_secure (
        if not no_cert
        then tls_from_file cert
        else if use_tls || (no_cert && port)
        then tls_system
        else insecure)
      ≡ (use_tls || (not no_cert || port))
transport_secure true true port cert = refl
transport_secure true false true cert = refl
transport_secure true false false cert = refl
transport_secure false true port cert = refl
transport_secure false false port cert = refl

required :
    (no_cert use_tls port : Bool)
    → ((use_tls || (no_cert && port)) || not no_cert) ≡ (use_tls || (not no_cert || port))
required true true port = refl
required true false true = refl
required true false false = refl
required false true port = refl
required false false port = refl

-- What goes with each call: nothing for a worker that lacks a key or an agent id, and else both,
-- with TLS required as the connection has it.
abbrev pub IsCredited : WorkerConfig → Transport → Option AgentCred → Type 0
IsCredited cfg transport none = (cfg.api_key ≡ []) ⊎ (cfg.agent_id ≡ [])
IsCredited cfg transport (some cred) =
    (cfg.api_key ≢ [])
    × (cfg.agent_id ≢ [])
    × (cred.agent_id ≡ cfg.agent_id)
    × (cred.token ≡ cfg.api_key)
    × (cred.require_tls ≡ is_secure transport)

is_empty : (s : Bytes) → (length s == 0) ≡ true → s ≡ []
is_empty [] t = refl
is_empty (c ∷ s) t = ground arith

not_empty : (s : Bytes) → (length s == 0) ≡ false → s ≢ []
not_empty [] t = cc
not_empty (c ∷ s) t = λ q. cc

-- The connection of every worker is by TLS exactly if the flag or a certificate asks for it, or if
-- the coordinator's address ends in :443. Credentials go with each call exactly if the worker has
-- both a key and an agent id; they are these two, and require TLS exactly if the connection has
-- it.
pub worker_dial_secure :
    (cfg : WorkerConfig)
    → (is_secure (worker_dial cfg).transport ≡ wants_tls cfg)
      × IsCredited cfg (worker_dial cfg).transport (worker_dial cfg).per_rpc
unfolding worker_dial dial_options transport_of tls_of
worker_dial_secure cfg =
    (secure, credited (length cfg.api_key == 0) (length cfg.agent_id == 0) refl refl)
  where
    port : Bool
    port = has_suffix cfg.coordinator (codes ":443")

    secure : is_secure (worker_dial cfg).transport ≡ wants_tls cfg
    secure = transport_secure (length cfg.tls_cert == 0) cfg.use_tls port cfg.tls_cert

    own : AgentCred
    own = record {
      agent_id = cfg.agent_id;
      token = cfg.api_key;
      require_tls = tls_of cfg || not (length cfg.tls_cert == 0);
    }

    credited :
        (no_key no_id : Bool)
        → (length cfg.api_key == 0) ≡ no_key
        → (length cfg.agent_id == 0) ≡ no_id
        → IsCredited cfg
            (worker_dial cfg).transport
            (if not no_key && not no_id then some own else none)
    credited true no_id k i = inl (is_empty cfg.api_key k)
    credited false true k i = inr (is_empty cfg.agent_id i)
    credited false false k i = (
      not_empty cfg.api_key k,
      not_empty cfg.agent_id i,
      refl,
      refl,
      required (length cfg.tls_cert == 0) cfg.use_tls port ∙ sym secure,
    )
