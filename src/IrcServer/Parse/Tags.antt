-- ===== src/IrcServer/Parse/Tags.antt =====
-- The values of message tags survive their escapes.
use stugan.Base.{
  ℕ, ◌<◌, true, false, [], ◌∷◌, ◌++◌, Bytes, str_eq, str_eq_iff, ◌≡◌, refl, ap, ap₂, sym, arith,
  All, if_cases,
}
use stugan.Go.Utf8.{chars, chars-cons}
use stugan.IrcServer.Parse.{
  escape_char, escape_chars, escape_tag_value, unescape_char, unescape_chars, unescape_tag_value,
}

module _ (e v : Bytes) (ih : unescape_chars false (chars e) ≡ v) where
  escaped :
      (c x : ℕ)
      → x < 128
      → unescape_char (x ∷ []) ≡ c ∷ []
      → unescape_chars false (chars (b'\\' ∷ (x ∷ e))) ≡ c ∷ v
  unfolding unescape_chars str_eq
  escaped c x h back =
      rw (chars-cons b'\\' (x ∷ e) (omega arith), chars-cons x e h)
        (ap₂ (λ (s t : Bytes). s ++ t) back ih)

  plain :
      (c : ℕ)
      → c < 128
      → str_eq (c ∷ []) (b'\\' ∷ []) ≡ false
      → unescape_chars false (chars (c ∷ e)) ≡ c ∷ v
  unfolding unescape_chars
  plain c h other = rw (chars-cons c e h, unescape_chars) (rw other (ap (λ (t : Bytes). c ∷ t) ih))

  unescape-escape_char :
      (c : ℕ) → c < 128 → unescape_chars false (chars (escape_char (c ∷ []) ++ e)) ≡ c ∷ v
  unfolding escape_char unescape_char str_eq
  unescape-escape_char c h =
      let P : Bytes → Type 0 = λ s. unescape_chars false (chars (s ++ e)) ≡ c ∷ v in
      let is =
        λ (x : ℕ) (t : str_eq (c ∷ []) (x ∷ []) ≡ true). sym ((str_eq_iff (c ∷ []) (x ∷ [])).0 t) in
      if_cases P (str_eq (c ∷ []) (b';' ∷ [])) (λ t. escaped c b':' (omega arith) (is b';' t))
        (λ _.
          if_cases P (str_eq (c ∷ []) (b' ' ∷ [])) (λ t. escaped c b's' (omega arith) (is b' ' t))
            (λ _.
              if_cases P (str_eq (c ∷ []) (b'\\' ∷ []))
                (λ t. escaped c b'\\' (omega arith) (is b'\\' t))
                (λ other.
                  if_cases P (str_eq (c ∷ []) (13 ∷ []))
                    (λ t. escaped c b'r' (omega arith) (is 13 t))
                    (λ _.
                      if_cases P (str_eq (c ∷ []) (10 ∷ []))
                        (λ t. escaped c b'n' (omega arith) (is 10 t)) (λ _. plain c h other)))))

nothing : unescape_tag_value (escape_tag_value []) ≡ []
unfolding unescape_tag_value escape_tag_value unescape_chars escape_chars chars
nothing = refl

-- A text of ASCII characters is unchanged by escaping and unescaping.
pub unescape_tag_value-escape_tag_value :
    (v : Bytes) → All (λ c. c < 128) v → unescape_tag_value (escape_tag_value v) ≡ v
unfolding unescape_tag_value escape_tag_value unescape_chars escape_chars
unescape_tag_value-escape_tag_value [] h = nothing
unescape_tag_value-escape_tag_value (c ∷ v) (h, hs) =
    rw (chars-cons c v h)
      (unescape-escape_char (escape_tag_value v) v (unescape_tag_value-escape_tag_value v hs) c h)
