-- ===== src/Irc/Sasl.antt =====
-- internal/irc/sasl.go: the response of SASL PLAIN, in parts.
use stugan.Base.{
  ℕ, zero, suc, Bool, true, false, List, [], ◌∷◌, ◌++◌, Bytes, codes, ltb, if◌then◌else◌, str_eq,
  take, drop, length,
}

abbrev pub sasl_chunk : ℕ
sasl_chunk = 400

-- The loop of `sendChunked`: the parts sent and the one returned.
unfoldable pub send_loop : ℕ → Bytes → List Bytes × Bytes
send_loop zero payload = ([], payload)
send_loop (suc fuel) payload = elim (ltb sasl_chunk (length payload)) [
  | true ↦
      let (sent, last) = send_loop fuel (drop sasl_chunk payload) in
      (take sasl_chunk payload ∷ sent, last)
  | false ↦ ([], payload)
]

-- `sendChunked`: a round takes 400 bytes off, so as many rounds as there are bytes are enough.
unfoldable pub send_chunked : Bytes → List Bytes × Bytes
unfolding send_loop
send_chunked payload = send_loop (length payload) payload

is_plus : List Bytes → Bool
is_plus (p ∷ []) = str_eq p (codes "+")
is_plus _ = false

-- `Encode`: `encode` is `base64.StdEncoding.EncodeToString`. The parts sent, and the text returned.
pub encode_plain : (Bytes → Bytes) → Bytes → Bytes → List Bytes → List Bytes × Bytes
unfolding is_plus
encode_plain encode user pass params =
    if is_plus params then send_chunked (encode (0 ∷ (user ++ (0 ∷ pass)))) else ([], [])
