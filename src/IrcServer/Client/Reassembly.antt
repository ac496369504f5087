-- ===== src/IrcServer/Client/Reassembly.antt =====
-- A SASL response that `sendChunked` cuts is put together again by `handleSasl`.
use stugan.Base.{
  ℕ, zero, suc, ◌%◌, ◌≤◌, ◌<◌, true, false, List, [], ◌∷◌, ◌++◌, Bytes, codes, ltb, ◌==◌,
  if◌then◌else◌, str_eq, take, drop, length, ◌≡◌, ◌≢◌, refl, sym, ap, ◌∙◌, arith, Bool-cases, ==→eq,
  ltb→lt, inl, inr, append_assoc, length-append, length-take, length-drop, take-append-drop,
}
use stugan.Go.Strings.{is_empty}
use stugan.Irc.Sasl.{send_chunked, send_loop}
use stugan.IrcServer.Parse.{Message}
use stugan.IrcServer.Caps.{cap_sasl}
use stugan.IrcServer.Client.{Hub, Client, has_cap, current_nick_or}
use stugan.IrcServer.Client.Sasl.{
  handle_sasl, take_chunk, finish_response, finish_sasl_plain, reset_sasl, max_sasl_response,
  sasl_chunk,
}

-- `AUTHENTICATE` with one parameter
abbrev pub authenticate : Bytes → Message
authenticate part = record {
  raw_tags = [];
  tags = [];
  prefix = [];
  command = codes "AUTHENTICATE";
  params = part ∷ [];
}

-- The server takes the parts in order.
pub feed : Hub → Client → List Bytes → Client
feed hub c [] = c
feed hub c (p ∷ ps) = feed hub (handle_sasl hub c (authenticate p)) ps

-- A text of another length than 1 is neither `*` nor `+`.
not_single : (s : Bytes) (x : ℕ) → length s ≢ 1 → str_eq s (x ∷ []) ≡ false
unfolding str_eq
not_single [] x h = refl
not_single (c ∷ []) x h = absurd (h refl)
not_single (c ∷ (d ∷ s)) x h = ground arith

-- A client in the middle of a response, with what it has sent so far.
abbrev gathered : Client → Bytes → Client
gathered c b = record c { sasl_buf = b }

pub record IsGathering (c : Client) : Type 0 where
  pub has_sasl : has_cap c.caps cap_sasl ≡ true
  pub has_mech : is_empty c.sasl_mech ≡ false

module _ (hub : Hub) (c : Client) (g : IsGathering c) where
  nick : Bytes
  nick = current_nick_or c (codes "*")

  whole :
      (b p : Bytes)
      → length p ≡ sasl_chunk
      → length (b ++ p) ≤ max_sasl_response
      → handle_sasl hub (gathered c b) (authenticate p) ≡ gathered c (b ++ p)
  unfolding handle_sasl take_chunk
  whole b p full fits =
      let star = not_single p b'*' (omega (arith, full)) in
      let plus = not_single p b'+' (omega (arith, full)) in
      rw (g.has_sasl, g.has_mech) (rw (star, plus) (ground arith))

  -- a part that is shorter ends the response
  short :
      (b p : Bytes)
      → length p < sasl_chunk
      → length p ≢ 1
      → length (b ++ p) ≤ max_sasl_response
      → handle_sasl hub (gathered c b) (authenticate p)
        ≡ finish_sasl_plain hub (reset_sasl c) (b ++ p) nick
  unfolding handle_sasl take_chunk finish_response reset_sasl nick current_nick_or
  short b p part single fits =
      let star = not_single p b'*' single in
      let plus = not_single p b'+' single in
      let over : ltb max_sasl_response (length (b ++ p)) ≡ false = ground arith in
      let more : (length p == sasl_chunk) ≡ false = ground arith in
      rw (g.has_sasl, g.has_mech) (rw (star, plus) (rw (over, more) refl))

  ended :
      (b : Bytes)
      → handle_sasl hub (gathered c b) (authenticate (codes "+"))
        ≡ finish_sasl_plain hub (reset_sasl c) b nick
  unfolding handle_sasl finish_response reset_sasl nick str_eq current_nick_or
  ended b = rw (g.has_sasl, g.has_mech) refl

-- What the client library does with the text that `Encode` returns, as it documents it: it sends
-- it, and behind one of full length an empty part.
pub record SendsLast (writes : Bytes → List Bytes) : Type 0 where
  pub sends_last :
      (last : Bytes)
      → 0 < length last
      → length last ≤ sasl_chunk
      → writes last ≡ (if length last == sasl_chunk then last ∷ (codes "+" ∷ []) else last ∷ [])

module _ (hub : Hub) (c : Client) (g : IsGathering c) (writes : Bytes → List Bytes)
    (w : SendsLast writes) where
  last_part :
      (b p : Bytes)
      → 0 < length p
      → length p ≤ sasl_chunk
      → length p % 4 ≡ 0
      → length (b ++ p) ≤ max_sasl_response
      → feed hub (gathered c b) (writes p)
        ≡ finish_sasl_plain hub (reset_sasl c) (b ++ p) (current_nick_or c (codes "*"))
  unfolding feed nick
  last_part b p pos small quads fits = elim (Bool-cases (length p == sasl_chunk)) [
    | inl full ↦
        rw (w.sends_last p pos small, full)
          (ap (λ d. handle_sasl hub d (authenticate (codes "+")))
              (whole hub c g b p (==→eq _ _ full) fits)
            ∙ ended hub c g (b ++ p))
    | inr part ↦
        rw (w.sends_last p pos small, part)
          (short hub c g b p (ground (arith, part)) (omega arith) fits)
  ]

  feed-append :
      (d : Client) (ps qs : List Bytes) → feed hub d (ps ++ qs) ≡ feed hub (feed hub d ps) qs
  unfolding feed
  feed-append d [] qs = refl
  feed-append d (p ∷ ps) qs = feed-append (handle_sasl hub d (authenticate p)) ps qs

  feed_loop :
      (fuel : ℕ) (b payload : Bytes)
      → length payload ≤ fuel
      → 0 < length payload
      → length payload % 4 ≡ 0
      → length (b ++ payload) ≤ max_sasl_response
      → feed hub (gathered c b) ((send_loop fuel payload).0 ++ writes (send_loop fuel payload).1)
        ≡ finish_sasl_plain hub (reset_sasl c) (b ++ payload) (current_nick_or c (codes "*"))
  unfolding send_loop feed
  feed_loop zero b payload enough pos quads fits = absurd (omega arith)
  feed_loop (suc fuel) b payload enough pos quads fits =
      elim (Bool-cases (ltb sasl_chunk (length payload))) [
        | inr few ↦ rw (few, send_loop) (last_part b payload pos (ground (arith, few)) quads fits)
        | inl many ↦
            let long : sasl_chunk < length payload = ltb→lt _ _ many in
            let rest = drop sasl_chunk payload in
            let first = take sasl_chunk payload in
            let parts : first ++ rest ≡ payload = take-append-drop sasl_chunk payload in
            let size_first : length first ≡ sasl_chunk =
              omega (arith, length-take sasl_chunk payload, long) in
            let size_rest = length-drop sasl_chunk payload in
            let all : (b ++ first) ++ rest ≡ b ++ payload =
              append_assoc b first rest ∙ ap (λ s. b ++ s) parts in
            let sizes = length-append (b ++ first) rest in
            let ih =
              feed_loop fuel (b ++ first) rest (omega (arith, size_rest, long, enough))
                (omega (arith, size_rest, long)) (omega (arith, size_rest, long, quads))
                (omega (arith, ap length all, fits)) in
            rw (many, send_loop)
              (ap (λ d. feed hub d ((send_loop fuel rest).0 ++ writes (send_loop fuel rest).1))
                  (whole hub c g b first size_first (omega (arith, ap length all, sizes, fits)))
                ∙ (ih
                    ∙ ap
                        (λ s.
                          finish_sasl_plain hub (reset_sasl c) s (current_nick_or c (codes "*")))
                        all))
      ]

  -- A client that is to send a response and has sent nothing of it: the parts that `sendChunked`
  -- sends, and what the client library makes of the one it returns, have the effect of the whole
  -- response at once, if that is base64 (a multiple of 4 bytes), not empty and within the limit.
  pub feed-send_chunked :
      (payload : Bytes)
      → c.sasl_buf ≡ []
      → 0 < length payload
      → length payload % 4 ≡ 0
      → length payload ≤ max_sasl_response
      → feed hub c ((send_chunked payload).0 ++ writes (send_chunked payload).1)
        ≡ finish_sasl_plain hub (reset_sasl c) payload (current_nick_or c (codes "*"))
  unfolding send_chunked
  feed-send_chunked payload fresh pos quads fits =
      let at : gathered c [] ≡ c = rw fresh refl in
      ap (λ d. feed hub d ((send_chunked payload).0 ++ writes (send_chunked payload).1)) (sym at)
      ∙ feed_loop (length payload) [] payload (omega arith) pos quads fits
