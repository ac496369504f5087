-- ===== src/EngineLink/Session/Read/Items.antt =====
-- What the client is given to read, as items, and sessions that differ in nothing of it.
use stugan.Base.{
  ℕ, Bool, true, false, ◌&&◌, ◌≡◌, refl, ap, sym, subst, ◌∙◌, List, [], ◌∷◌, ◌++◌, Bytes, codes,
  append_assoc, append-nil, arith, max, ◌==◌, ◌≤◌,
}
use stugan.EngineLink.Tags.{tag_line, ack_probe}
use stugan.EngineLink.Session.{Session, replayed, marker_ping}

-- What the client is given: a line of the server, a probe, or what the engine kept of the registration.
pub data Item : Type 0 where
  line : ℕ → ℕ → Bytes → Item
  probed_at : ℕ → Item
  replay : List Bytes → Bytes → Item

-- The highest number of a line.
abbrev pub highest : ℕ → List Item → ℕ
highest n [] = n
highest n (line seq at l ∷ is) = highest (max n seq) is
highest n (probed_at k ∷ is) = highest n is
highest n (replay ls m ∷ is) = highest n is

-- Every probe carries the highest number of a line in front of it; `n` is the highest before.
abbrev pub is_honest : ℕ → List Item → Bool
is_honest n [] = true
is_honest n (line seq at l ∷ is) = is_honest (max n seq) is
is_honest n (probed_at k ∷ is) = k == n && is_honest n is
is_honest n (replay ls m ∷ is) = is_honest n is

highest-append : (n : ℕ) (is js : List Item) → highest n (is ++ js) ≡ highest (highest n is) js
highest-append n [] js = refl
highest-append n (line seq at l ∷ is) js = highest-append (max n seq) is js
highest-append n (probed_at k ∷ is) js = highest-append n is js
highest-append n (replay ls m ∷ is) js = highest-append n is js

is_honest-append :
    (n : ℕ) (is js : List Item)
    → is_honest n is ≡ true
    → is_honest (highest n is) js ≡ true
    → is_honest n (is ++ js) ≡ true
is_honest-append n [] js h k = k
is_honest-append n (line seq at l ∷ is) js h k = is_honest-append (max n seq) is js h k
is_honest-append n (probed_at i ∷ is) js h k = ground (arith, is_honest-append n is js)
is_honest-append n (replay ls m ∷ is) js h k = is_honest-append n is js h k

-- the items that the engine's frames bring
abbrev pub without_probes : List Item → List Item
without_probes [] = []
without_probes (line seq at l ∷ is) = line seq at l ∷ without_probes is
without_probes (probed_at k ∷ is) = without_probes is
without_probes (replay ls m ∷ is) = replay ls m ∷ without_probes is

pub without_probes-append :
    (is js : List Item) → without_probes (is ++ js) ≡ without_probes is ++ without_probes js
without_probes-append [] js = refl
without_probes-append (line seq at l ∷ is) js =
    ap (λ (ks : List Item). line seq at l ∷ ks) (without_probes-append is js)
without_probes-append (probed_at k ∷ is) js = without_probes-append is js
without_probes-append (replay ls m ∷ is) js =
    ap (λ (ks : List Item). replay ls m ∷ ks) (without_probes-append is js)

-- The two sessions differ in nothing that is read.
pub record Kept (s s' : Session) : Type 0 where
  pub same_rbuf : s'.rbuf ≡ s.rbuf
  pub same_delivered : s'.delivered ≡ s.delivered
  pub same_probed : s'.probed ≡ s.probed

abbrev pub unchanged : (s : Session) → Kept s s
unchanged s = record { same_rbuf = refl; same_delivered = refl; same_probed = refl }

module _ (decimal server_time : ℕ → Bytes) where
  -- the kept lines, each as a replay with the end of a line
  abbrev pub kept_bytes : List Bytes → Bytes
  kept_bytes [] = []
  kept_bytes (l ∷ ls) = tag_line decimal server_time l 0 0 true ++ (13 ∷ (10 ∷ kept_bytes ls))

  replayed-kept_bytes : (ls : List Bytes) → replayed decimal server_time ls ≡ kept_bytes ls
  unfolding replayed
  replayed-kept_bytes [] = refl
  replayed-kept_bytes (l ∷ ls) =
      ap (λ (b : Bytes). tag_line decimal server_time l 0 0 true ++ (13 ∷ (10 ∷ b)))
        (replayed-kept_bytes ls)

  -- the bytes of the items
  abbrev pub item_bytes : Item → Bytes
  item_bytes (line seq at l) = tag_line decimal server_time l seq at false ++ (13 ∷ (10 ∷ []))
  item_bytes (probed_at k) = ack_probe decimal k
  item_bytes (replay ls m) = kept_bytes ls ++ (codes "PING :" ++ (m ++ (13 ∷ (10 ∷ []))))

  pub replay-item_bytes :
      (ls : List Bytes) (m : Bytes)
      → replayed decimal server_time ls ++ marker_ping m ≡ item_bytes (replay ls m)
  unfolding marker_ping
  replay-item_bytes ls m =
      ap (λ (b : Bytes). b ++ (codes "PING :" ++ (m ++ (13 ∷ (10 ∷ []))))) (replayed-kept_bytes ls)

  abbrev pub render : List Item → Bytes
  render [] = []
  render (i ∷ is) = item_bytes i ++ render is

  -- What was read and what is still to read are the bytes of items.
  pub record IsTold (s : Session) (got : Bytes) (is : List Item) : Type 0 where
    pub same_bytes : got ++ s.rbuf ≡ render is
    pub honest : is_honest 0 is ≡ true
    pub up_to : highest 0 is ≡ s.delivered
    pub behind : s.probed ≤ s.delivered

  render-append : (is js : List Item) → render (is ++ js) ≡ render is ++ render js
  render-append [] js = refl
  render-append (i ∷ is) js =
      ap (◌++◌ (item_bytes i)) (render-append is js)
      ∙ sym (append_assoc (item_bytes i) (render is) (render js))

  pub Kept-IsTold :
      {s s' : Session} {got : Bytes} {is : List Item}
      → Kept s s'
      → IsTold s got is
      → IsTold s' got is
  Kept-IsTold {got = got} k t = record {
    same_bytes = ap (◌++◌ got) k.same_rbuf ∙ t.same_bytes;
    honest = t.honest;
    up_to = t.up_to ∙ sym k.same_delivered;
    behind = omega (arith, k.same_delivered, k.same_probed, t.behind);
  }

  -- An item more in the buffer.
  pub grown-IsTold :
      {s s' : Session} {got : Bytes} {is : List Item} (i : Item)
      → s'.rbuf ≡ s.rbuf ++ item_bytes i
      → is_honest s.delivered (i ∷ []) ≡ true
      → highest s.delivered (i ∷ []) ≡ s'.delivered
      → s'.probed ≤ s'.delivered
      → IsTold s got is
      → IsTold s' got (is ++ i ∷ [])
  grown-IsTold {s} {got = got} {is} i same fair up low t = record {
    same_bytes =
        ap (◌++◌ got) same
        ∙ sym (append_assoc got s.rbuf (item_bytes i))
        ∙ ap (λ b. b ++ item_bytes i) t.same_bytes
        ∙ ap (◌++◌ (render is)) (sym (append-nil (item_bytes i)))
        ∙ sym (render-append is (i ∷ []));
    honest =
        is_honest-append 0 is (i ∷ []) t.honest
          (subst (λ n. is_honest n (i ∷ []) ≡ true) (sym t.up_to) fair);
    up_to = highest-append 0 is (i ∷ []) ∙ ap (λ n. highest n (i ∷ [])) t.up_to ∙ up;
    behind = low;
  }
