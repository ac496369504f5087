-- ===== src/IrcServer/Client/Caps/Negotiated.antt =====
-- What a client has negotiated after a request.
use stugan.Base.{
  Bool, true, false, not, ◌&&◌, ◌||◌, List, [], ◌∷◌, ◌++◌, Bytes, codes, if◌then◌else◌, str_eq,
  str_eq_iff, ◌≡◌, refl, sym, ap, ◌∙◌, arith, All, All-append, Bool-cases, if_cases, inl, inr,
}
use stugan.Go.Strings.{starts_with_byte, trim_prefix_byte, to_upper}
use stugan.Go.Space.{fields}
use stugan.IrcServer.Parse.{Message}
use stugan.IrcServer.Caps.{is_cap_supported, supported_caps, is_among}
use stugan.IrcServer.Client.{Hub, Client, has_cap, write, reply}
use stugan.IrcServer.Client.Caps.{
  param_0, param_1, all_supported, drop_cap, add_cap, change_caps, negotiating, cap_reply,
  no_fields, request, handle_cap,
}

-- What the words of a request say of a capability: the last word that names it decides.
unfoldable pub wanted : Bool → List Bytes → Bytes → Bool
wanted had [] cap = had
wanted had (c ∷ cs) cap =
    wanted
      (if starts_with_byte c b'-'
        then not (str_eq (trim_prefix_byte c b'-') cap) && had
        else str_eq c cap || had)
      cs cap

has_cap-drop_cap :
    (caps : List Bytes) (c cap : Bytes)
    → has_cap (drop_cap caps c) cap ≡ (not (str_eq c cap) && has_cap caps cap)
unfolding has_cap drop_cap
has_cap-drop_cap [] c cap = ground arith
has_cap-drop_cap (x ∷ xs) c cap = elim (Bool-cases (str_eq x c)) [
  | inl same ↦
      let at : str_eq x cap ≡ str_eq c cap = ap (λ s. str_eq s cap) ((str_eq_iff x c).0 same) in
      rw (same, has_cap) (has_cap-drop_cap xs c cap ∙ rw at (ground arith))
  | inr other ↦
      rw (other, has_cap)
        (rw (has_cap-drop_cap xs c cap) (elim (Bool-cases (str_eq c cap)) [
          | inl e ↦
              let no : str_eq x cap ≡ false =
                ap (str_eq x) (sym ((str_eq_iff c cap).0 e)) ∙ other in
              rw (e, no) refl
          | inr e ↦ rw e refl
        ]))
]

has_cap-append :
    (xs : List Bytes) (c cap : Bytes)
    → has_cap (xs ++ c ∷ []) cap ≡ (has_cap xs cap || str_eq c cap)
unfolding has_cap
has_cap-append [] c cap = ground arith
has_cap-append (x ∷ xs) c cap = ground (arith, has_cap-append xs c cap)

has_cap-add_cap :
    (caps : List Bytes) (c cap : Bytes)
    → has_cap (add_cap caps c) cap ≡ (str_eq c cap || has_cap caps cap)
unfolding add_cap
has_cap-add_cap caps c cap = elim (Bool-cases (has_cap caps c)) [
  | inl there ↦ rw there (elim (Bool-cases (str_eq c cap)) [
    | inl e ↦ rw e (ap (has_cap caps) (sym ((str_eq_iff c cap).0 e)) ∙ there)
    | inr e ↦ rw e refl
  ])
  | inr new ↦ rw new (has_cap-append caps c cap ∙ ground arith)
]

has_cap-change_caps :
    (caps cs : List Bytes) (cap : Bytes)
    → has_cap (change_caps caps cs) cap ≡ wanted (has_cap caps cap) cs cap
unfolding change_caps wanted
has_cap-change_caps caps [] cap = refl
has_cap-change_caps caps (c ∷ cs) cap = elim (Bool-cases (starts_with_byte c b'-')) [
  | inl off ↦
      rw (off, change_caps, wanted)
        (has_cap-change_caps (drop_cap caps (trim_prefix_byte c b'-')) cs cap
          ∙ ap (λ had. wanted had cs cap) (has_cap-drop_cap caps (trim_prefix_byte c b'-') cap))
  | inr on ↦
      rw (on, change_caps, wanted)
        (has_cap-change_caps (add_cap caps c) cs cap
          ∙ ap (λ had. wanted had cs cap) (has_cap-add_cap caps c cap))
]

-- What the session holds is what it offers.
abbrev pub Offered : List Bytes → Type 0
Offered = All (λ cap. is_among supported_caps cap ≡ true)

drop_cap-Offered : (caps : List Bytes) (c : Bytes) → Offered caps → Offered (drop_cap caps c)
unfolding drop_cap
drop_cap-Offered [] c h = h
drop_cap-Offered (x ∷ xs) c (h, hs) =
    if_cases Offered (str_eq x c) (λ _. drop_cap-Offered xs c hs)
      (λ _. (h, drop_cap-Offered xs c hs))

add_cap-Offered :
    (caps : List Bytes) (c : Bytes)
    → is_among supported_caps c ≡ true
    → Offered caps
    → Offered (add_cap caps c)
unfolding add_cap
add_cap-Offered caps c ok h =
    if_cases Offered (has_cap caps c) (λ _. h)
      (λ _. All-append (λ cap. is_among supported_caps cap ≡ true) caps (c ∷ []) h (ok, tt))

no_minus : (c : Bytes) → starts_with_byte c b'-' ≡ false → trim_prefix_byte c b'-' ≡ c
unfolding starts_with_byte trim_prefix_byte
no_minus [] h = refl
no_minus (x ∷ c) h = rw h refl

change_caps-Offered :
    (caps cs : List Bytes) → all_supported cs ≡ true → Offered caps → Offered (change_caps caps cs)
unfolding change_caps all_supported is_cap_supported
change_caps-Offered caps [] ok h = h
change_caps-Offered caps (c ∷ cs) ok h =
    let rest : all_supported cs ≡ true = ground (arith, ok) in
    let this : is_cap_supported c ≡ true = ground (arith, ok) in
    elim (Bool-cases (starts_with_byte c b'-')) [
      | inl off ↦
          rw (off, change_caps)
            (change_caps-Offered (drop_cap caps (trim_prefix_byte c b'-')) cs rest
              (drop_cap-Offered caps _ h))
      | inr on ↦
          rw (on, change_caps)
            (change_caps-Offered (add_cap caps c) cs rest (
              add_cap-Offered caps c (ap (is_among supported_caps) (sym (no_minus c on)) ∙ this) h))
    ]

-- a request that is taken: it has words, and all of them are supported
unfoldable pub is_taken : Hub → Message → Bool
is_taken hub msg =
    str_eq (to_upper hub.unicode_upper (param_0 msg.params)) (codes "REQ")
    && (all_supported (fields (param_1 msg.params))
        && not (no_fields (fields (param_1 msg.params))))

reply-caps : (c : Client) (code : Bytes) (ps : List Bytes) → (reply c code ps).caps ≡ c.caps
unfolding reply write
reply-caps c code ps = ground arith

cap_reply-caps : (c : Client) (sub text : Bytes) → (cap_reply c sub text).caps ≡ c.caps
unfolding cap_reply
cap_reply-caps c sub text = reply-caps c _ _

negotiating-caps : (c : Client) → (negotiating c).caps ≡ c.caps
unfolding negotiating
negotiating-caps c = ground arith

request-caps :
    (c : Client) (req : Bytes)
    → (request c req).caps ≡ (
        if all_supported (fields req) && not (no_fields (fields req))
        then change_caps c.caps (fields req)
        else c.caps)
unfolding request
request-caps c req = elim (Bool-cases (all_supported (fields req))) [
  | inr bad ↦ rw bad (cap_reply-caps c _ req)
  | inl ok ↦ elim (Bool-cases (no_fields (fields req))) [
    | inl empty ↦ rw (ok, empty) (cap_reply-caps c _ req)
    | inr words ↦ rw (ok, words) (cap_reply-caps _ _ req)
  ]
]

handle_cap-taken :
    (hub : Hub) (c : Client) (msg : Message)
    → (handle_cap hub c msg).caps
      ≡ (if is_taken hub msg then change_caps c.caps (fields (param_1 msg.params)) else c.caps)
unfolding handle_cap is_taken str_eq
handle_cap-taken hub c msg =
    let sub = to_upper hub.unicode_upper (param_0 msg.params) in
    elim (Bool-cases (str_eq sub (codes "REQ"))) [
      | inl e ↦
          let is : sub ≡ codes "REQ" = (str_eq_iff sub (codes "REQ")).0 e in
          let req = param_1 msg.params in
          rw is (request-caps (negotiating c) req ∙ rw (negotiating-caps c) refl)
      | inr e ↦ rw e (
          if_cases (λ (d : Client). d.caps ≡ c.caps) (str_eq sub (codes "LS"))
            (λ _. cap_reply-caps _ _ _ ∙ negotiating-caps c)
            (λ _.
              if_cases (λ (d : Client). d.caps ≡ c.caps) (str_eq sub (codes "LIST"))
                (λ _. cap_reply-caps c _ _)
                (λ _.
                  if_cases (λ (d : Client). d.caps ≡ c.caps) (str_eq sub (codes "END")) (λ _. refl)
                    (λ _. reply-caps c _ _))))
    ]

-- A client holds only capabilities that the server offers, and a CAP message keeps that. A request
-- that is taken decides every capability by the last of its words that names it; any other
-- message, also a request with an unknown word, leaves what is negotiated as it was.
pub handle_cap-negotiated :
    (hub : Hub) (c : Client) (msg : Message)
    → Offered c.caps
    → Offered (handle_cap hub c msg).caps
      × ((cap : Bytes)
          → has_cap (handle_cap hub c msg).caps cap ≡ (
              if is_taken hub msg
              then wanted (has_cap c.caps cap) (fields (param_1 msg.params)) cap
              else has_cap c.caps cap))
unfolding is_taken
handle_cap-negotiated hub c msg h =
    let cs = fields (param_1 msg.params) in
    elim (Bool-cases (is_taken hub msg)) [
      | inl yes_taken ↦
          let all : all_supported cs ≡ true = ground (arith, yes_taken) in
          let is : (handle_cap hub c msg).caps ≡ change_caps c.caps cs =
            handle_cap-taken hub c msg ∙ rw yes_taken refl in
          rw is (
            change_caps-Offered c.caps cs all h,
            λ cap. rw yes_taken (has_cap-change_caps c.caps cs cap),
          )
      | inr not_taken ↦
          let is : (handle_cap hub c msg).caps ≡ c.caps =
            handle_cap-taken hub c msg ∙ rw not_taken refl in
          rw is (h, λ cap. rw not_taken refl)
    ]
