-- ===== src/Engine/Session/Stream/Shedding.antt =====
-- The loop that keeps a backlog within its byte limit, and the hook of the shared budget.
use stugan.Base.{
  ◌↔◌, leb, ℕ, zero, suc, ◌≤◌, ◌<◌, ◌^◌, true, List, [], ◌∷◌, ◌++◌, ◌≡◌, refl, length, ap, ltb, sym,
  ◌∙◌, append_assoc, lt_i64, ◌&&◌, arith, Bool-cases, inl, inr, ◌⊎◌,
}
use stugan.Engine.Buffer.{BufferedLine}
use stugan.Engine.Session.State.{Session}
use stugan.Engine.Session.Stream.{Held, drop_oldest_locked, shed, shed_loop, shed_oldest}
use stugan.Engine.Session.Stream.Sound.{
  IsSound, Balanced, dropped, cons_of_pos, drop_oldest_locked-cons, drop_oldest_locked-IsSound,
  drop_oldest_locked-Balanced,
}

-- What a round of shedding keeps: the tail of the backlog and every field but `buf` and `lost`.
pub record Sheds (h g : Held) : Type 0 where
  pub gone : List BufferedLine
  pub splits : h.sess.buf.lines ≡ gone ++ g.sess.buf.lines
  pub rest_same : g.sess ≡ record (h.sess) { buf = g.sess.buf; lost = g.sess.lost }

Sheds-refl : (h : Held) → Sheds h h
Sheds-refl h = record { gone = []; splits = refl; rest_same = refl }

Sheds-trans : (h g k : Held) → Sheds h g → Sheds g k → Sheds h k
Sheds-trans h g k p q = record {
  gone = p.gone ++ q.gone;
  splits = p.splits ∙ ap (◌++◌ p.gone) q.splits ∙ sym (append_assoc p.gone q.gone k.sess.buf.lines);
  rest_same =
      q.rest_same
      ∙ ap (λ (s : Session). record s { buf = k.sess.buf; lost = k.sess.lost }) p.rest_same;
}

drop_oldest_locked-Sheds : (h : Held) → 0 < length h.sess.buf.lines → Sheds h (drop_oldest_locked h)
unfolding dropped
drop_oldest_locked-Sheds h n =
    let (l, ls, e) = cons_of_pos h.sess.buf.lines n in
    rw (drop_oldest_locked-cons h l ls e) (record { gone = l ∷ []; splits = e; rest_same = refl })

pub length-drop_oldest_locked :
    (h : Held)
    → 0 < length h.sess.buf.lines
    → length h.sess.buf.lines ≡ suc (length (drop_oldest_locked h).sess.buf.lines)
unfolding dropped
length-drop_oldest_locked h n =
    let (l, ls, e) = cons_of_pos h.sess.buf.lines n in
    rw (drop_oldest_locked-cons h l ls e) (ap length e)

Balanced-trans : (h g k : Held) → Balanced h g → Balanced g k → Balanced h k
Balanced-trans h g k p q = omega arith

-- One statement for the loop: it keeps soundness and the balance, drops from the front only, and
-- ends below the limit or with one line.
pub record Shed (reported limit : ℕ) (h g : Held) : Type 0 where
  pub sound : IsSound reported g.sess
  pub balanced : Balanced h g
  pub sheds : Sheds h g
  pub stops : (g.sess.buf.bytes ≤ limit) ⊎ (length g.sess.buf.lines ≤ 1)
  pub keeps_one : 0 < length h.sess.buf.lines → 0 < length g.sess.buf.lines

shed_loop-Shed :
    (fuel reported limit : ℕ) (h : Held)
    → limit < 2 ^ 63
    → length h.sess.buf.lines ≤ fuel
    → IsSound reported h.sess
    → Shed reported limit h (shed_loop fuel limit h)
unfolding shed_loop
shed_loop-Shed zero reported limit h small n v = record {
  sound = v;
  balanced = refl;
  sheds = Sheds-refl h;
  stops = inr (omega arith);
  keeps_one = λ p. p;
}
shed_loop-Shed (suc fuel) reported limit h small n v =
    elim (Bool-cases (lt_i64 limit h.sess.buf.bytes && ltb 1 (length h.sess.buf.lines))) [
      | inr stop ↦
          rw (stop, shed_loop)
            (record {
              sound = v;
              balanced = refl;
              sheds = Sheds-refl h;
              stops = ground (arith, v.buffer.bytes_are, v.buffer.fits);
              keeps_one = λ p. p;
            })
      | inl more ↦
          let pos : 0 < length h.sess.buf.lines = ground arith in
          let g = drop_oldest_locked h in
          let fewer = length-drop_oldest_locked h pos in
          let ih =
            shed_loop-Shed fuel reported limit g small (omega arith)
              (drop_oldest_locked-IsSound reported h pos v) in
          rw (more, shed_loop)
            (record {
              sound = ih.sound;
              balanced =
                  Balanced-trans h g (shed_loop fuel limit g)
                    (drop_oldest_locked-Balanced h pos v.buffer.fits) ih.balanced;
              sheds =
                  Sheds-trans h g (shed_loop fuel limit g) (drop_oldest_locked-Sheds h pos)
                    ih.sheds;
              stops = ih.stops;
              keeps_one = λ _. ih.keeps_one (ground arith);
            })
    ]

-- What every drop keeps, shedding keeps.
shed_loop-keeps :
    (P : Held → Type 0) (reported : ℕ)
    → ((g : Held)
        → 0 < length g.sess.buf.lines
        → IsSound reported g.sess
        → P g
        → P (drop_oldest_locked g))
    → (fuel limit : ℕ) (h : Held) → IsSound reported h.sess
    → P h
    → P (shed_loop fuel limit h)
unfolding shed_loop
shed_loop-keeps P reported keeps zero limit h v p = p
shed_loop-keeps P reported keeps (suc fuel) limit h v p =
    elim (Bool-cases (lt_i64 limit h.sess.buf.bytes && ltb 1 (length h.sess.buf.lines))) [
      | inr stop ↦ rw (stop, shed_loop) p
      | inl more ↦
          let pos : 0 < length h.sess.buf.lines = ground arith in
          rw (more, shed_loop)
            (shed_loop-keeps P reported keeps fuel limit (drop_oldest_locked h)
              (drop_oldest_locked-IsSound reported h pos v) (keeps h pos v p))
    ]

pub shed-keeps :
    (P : Held → Type 0) (reported : ℕ)
    → ((g : Held)
        → 0 < length g.sess.buf.lines
        → IsSound reported g.sess
        → P g
        → P (drop_oldest_locked g))
    → (limit : ℕ) (h : Held) → IsSound reported h.sess
    → P h
    → P (shed limit h)
unfolding shed
shed-keeps P reported keeps limit h =
    shed_loop-keeps P reported keeps (length h.sess.buf.lines) limit h

-- Shedding keeps the session sound and the shared counter in balance, drops lines from the front
-- only and changes nothing but `buf` and `lost`, leaves a line if there was one, and stops within
-- the limit or at a single line.
pub shed-Shed :
    (reported limit : ℕ) (h : Held)
    → limit < 2 ^ 63
    → IsSound reported h.sess
    → Shed reported limit h (shed limit h)
unfolding shed
shed-Shed reported limit h small v =
    shed_loop-Shed (length h.sess.buf.lines) reported limit h small (omega arith) v

-- The hook of the shared budget drops one line exactly where there is more than one.
pub shed_oldest-IsSound :
    (reported : ℕ) (h : Held)
    → IsSound reported h.sess
    → IsSound reported (shed_oldest h).0.sess
      × Balanced h (shed_oldest h).0
      × (((shed_oldest h).1 ≡ true) ↔ (1 < length h.sess.buf.lines))
      × ((shed_oldest h).1 ≡ true
          → length h.sess.buf.lines ≡ suc (length (shed_oldest h).0.sess.buf.lines))
unfolding shed_oldest
shed_oldest-IsSound reported h v = elim (Bool-cases (leb (length h.sess.buf.lines) 1)) [
  | inl few ↦ rw few (v, refl, ground arith, ground arith)
  | inr many ↦
      let pos : 0 < length h.sess.buf.lines = ground arith in
      rw many (
        drop_oldest_locked-IsSound reported h pos v,
        drop_oldest_locked-Balanced h pos v.buffer.fits,
        ground arith,
        λ _. length-drop_oldest_locked h pos,
      )
]

pub shed_oldest-Sheds : (h : Held) → Sheds h (shed_oldest h).0
unfolding shed_oldest
shed_oldest-Sheds h = elim (Bool-cases (leb (length h.sess.buf.lines) 1)) [
  | inl few ↦ rw few (Sheds-refl h)
  | inr many ↦ rw many (drop_oldest_locked-Sheds h (ground arith))
]
