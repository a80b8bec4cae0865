-- ===== src/Runtime/Threads/Bounded.antt =====
-- The threads of src/sceptre_pipeline/runtime.py where each of them keeps getting on.
use mathlib.Core.Path.{subst}
use sceptre_pipeline.Prelude.{
  ℕ, suc, ◌+◌, ◌*◌, ◌≤◌, ◌<◌, ◌≡◌, ◌≢◌, refl, sym, ap, ◌∙◌, true, false, true≢false, List, [], ◌∷◌,
  length, arith, Bool-cases, inl, inr, ◌⊎◌,
}
use sceptre_pipeline.Floats.{Floats}
use sceptre_pipeline.Numpy.{Numpy}
use sceptre_pipeline.Dict.{StreamId}
use sceptre_pipeline.Sources.{Put}
use sceptre_pipeline.Runtime.{Pipeline}
use sceptre_pipeline.Runtime.Threads.{System, start, produce, turn, Reach, produced, here, next}
use sceptre_pipeline.Runtime.Threads.Halting.{IsMarked, WillEnd, empty_unmarked, start-WillEnd}
use sceptre_pipeline.Runtime.Threads.Work.{
  work, produce-work, turn-work, IsLater, turn-IsLater, Reach-IsLater,
}

module _ {F Arr : Type 0} (fl : Floats F) (np : Numpy Arr) where
  -- what the source's thread does next: it puts an item, if there is one left
  abbrev pub put_next : List Put → System F → System F
  put_next [] s = s
  put_next (x ∷ rest) s = produce x rest s

  -- A part of an execution in which each of the two threads gets on: among any other steps, the
  -- source puts its next item, if it has one, and then the consumer takes a turn.
  pub data Round (s t : System F) : Type 0 where
    both :
        {u v : System F} (now : F) (clock : StreamId → F)
        → Reach fl np s u
        → Reach fl np (put_next u.pending u) v
        → Reach fl np (turn fl np now clock v) t
        → Round s t

  -- An execution that is made of rounds, with their number.
  pub data Rounds (s : System F) : ℕ → System F → Type 0 where
    begin : Rounds s 0 s
    round : {n : ℕ} {t u : System F} → Rounds s n t → Round t u → Rounds s (suc n) u

  put_next-Reach : (xs : List Put) (s : System F) → s.pending ≡ xs → Reach fl np s (put_next xs s)
  put_next-Reach [] s e = here
  put_next-Reach (x ∷ rest) s e = next here (produced x rest e refl)

  -- The consumer has returned, or less is left to do.
  abbrev Advances : System F → System F → Type 0
  Advances s t = (t.finished ≡ true) ⊎ (work t < work s)

  some_item :
      (s : System F)
      → length s.pending ≤ 0
      → s.finished ≡ false
      → WillEnd fl np s
      → s.queue.items ≢ []
  some_item s none_left on (inl done) = absurd (true≢false (sym done ∙ on))
  some_item s none_left on (inr (inl m)) = absurd (empty_unmarked s.pending none_left m)
  some_item s none_left on (inr (inr (e, m))) = λ empty. subst IsMarked empty m

  turn-Advances :
      (now : F) (clock : StreamId → F) (s : System F)
      → length s.pending ≤ 0
      → WillEnd fl np s
      → Advances s (turn fl np now clock s)
  turn-Advances now clock s none_left w = elim (Bool-cases s.finished) [
    | inl done ↦ inl ((turn-IsLater fl np now clock s).over done)
    | inr on ↦ inr ((turn-work fl np now clock s).1 on (inr (some_item s none_left on w)))
  ]

  -- Where there is no item to put, the mark is in the queue, and the turn finds an item.
  middle-Advances :
      (now : F) (clock : StreamId → F) (s t : System F) (xs : List Put)
      → s.pending ≡ xs
      → WillEnd fl np s
      → Reach fl np (put_next xs s) t
      → Advances s (turn fl np now clock t)
  middle-Advances now clock s t [] e w r =
      let later = Reach-IsLater fl np r in
      elim (turn-Advances now clock t (omega (arith, later.fewer, ap length e)) (later.ends w)) [
        | inl done ↦ inl done
        | inr falls ↦ inr (omega (arith, later.less, falls))
      ]
  middle-Advances now clock s t (x ∷ rest) e w r = inr (
      omega (
        arith,
        produce-work x rest s e,
        (Reach-IsLater fl np r).less,
        (turn-IsLater fl np now clock t).less,
      ))

  Round-Advances : {s t : System F} → Round s t → WillEnd fl np s → Advances s t
  Round-Advances (both {u} {v} now clock before between after) w =
      let a = Reach-IsLater fl np before in
      let c = Reach-IsLater fl np after in
      elim (middle-Advances now clock u v u.pending refl (a.ends w) between) [
        | inl done ↦ inl (c.over done)
        | inr falls ↦ inr (omega (arith, a.less, falls, c.less))
      ]

  Round-IsLater : {s t : System F} → Round s t → IsLater fl np s t
  Round-IsLater (both {u} {v} now clock before between after) =
      let a = Reach-IsLater fl np before in
      let b = Reach-IsLater fl np (put_next-Reach u.pending u refl) in
      let c = Reach-IsLater fl np between in
      let d = turn-IsLater fl np now clock v in
      let e = Reach-IsLater fl np after in
      record {
        less = omega (arith, a.less, b.less, c.less, d.less, e.less);
        fewer = omega (arith, a.fewer, b.fewer, c.fewer, d.fewer, e.fewer);
        over = λ h. e.over (d.over (c.over (b.over (a.over h))));
        ends = λ h. e.ends (d.ends (c.ends (b.ends (a.ends h))));
      }

  Rounds-work :
      {s t : System F} {n : ℕ}
      → WillEnd fl np s
      → Rounds s n t
      → WillEnd fl np t × ((t.finished ≡ true) ⊎ (n + work t ≤ work s))
  Rounds-work w begin = (w, inr (omega arith))
  Rounds-work w (round r one) =
      let (w', so_far) = Rounds-work w r in
      let later = Round-IsLater one in
      (
        later.ends w',
        elim so_far [
          | inl done ↦ inl (later.over done)
          | inr count ↦ elim (Round-Advances one w') [
            | inl done ↦ inl done
            | inr falls ↦ inr (omega (arith, count, falls))
          ]
        ],
      )

  -- Let the source's puts end with the end-of-stream mark. An execution of the threads from the
  -- start on a new queue may take its steps in any order and set the stop event at any time. If it
  -- is cut into parts in each of which, among any other steps, the source puts its next item if it
  -- has one and the consumer then takes a turn, and there are at least twice as many parts as the
  -- source has items to put, and two, then `run` has returned by the end of it.
  pub run-terminates :
      (maxsize : ℕ) (all : List Put) (p : Pipeline F) (n : ℕ) (s : System F)
      → IsMarked all
      → Rounds (start maxsize all p) n s
      → 2 * length all + 2 ≤ n
      → s.finished ≡ true
  unfolding start
  run-terminates maxsize all p n s marked r enough =
      elim (Rounds-work (start-WillEnd fl np maxsize all p marked) r).1 [
        | inl done ↦ done
        | inr count ↦ elim (Bool-cases s.finished) [
          | inl done ↦ done
          | inr on ↦ absurd (omega (arith, enough, rw on at count))
        ]
      ]
