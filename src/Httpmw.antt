-- ===== src/Httpmw.antt =====
-- internal/httpmw/middleware.go: the cap on bodies, and the recovery from panics.
use dauth.Base.{
  ℕ, zero, suc, String, List, [], ◌∷◌, Option, none, some, Bool, ltb, length, Result, ok, err,
}

-- What a body gives to its reader: the bytes, and whether an error follows them in place of the end.
pub record Body : Type 0 where
  pub bytes : List ℕ
  pub too_large : Bool

take_bytes : ℕ → List ℕ → List ℕ
take_bytes zero l = []
take_bytes (suc n) [] = []
take_bytes (suc n) (b ∷ bs) = b ∷ take_bytes n bs

-- MaxBytes, on the bytes that the client sends: http.MaxBytesReader hands on the first `limit`, and
-- fails if there are more.
unfoldable pub max_bytes : ℕ → List ℕ → Body
unfolding take_bytes
max_bytes limit sent = record { bytes = take_bytes limit sent; too_large = ltb limit (length sent) }

-- Recover: a panic, `none`, of a handler that has not answered becomes a response of status 500.
unfoldable pub recover : {R : Type 0} → (ℕ → String → R) → Option R → R
recover respond none = respond 500 "internal server error"
recover respond (some r) = r

-- RemoteIP, over net.SplitHostPort, whose port is not used.
unfoldable pub remote_ip : (String → Result String) → String → String
remote_ip split_host_port remote_addr = elim (split_host_port remote_addr) [
  | err _ ↦ remote_addr
  | ok host ↦ host
]
