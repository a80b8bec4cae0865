-- ===== src/Runtime/Threads/Work.antt =====
-- What is left to do for the threads of src/sceptre_pipeline/runtime.py, and what no step undoes.
use mathlib.Core.Path.{subst}
use sceptre_pipeline.Prelude.{
  ℕ, ◌+◌, ◌*◌, ◌≤◌, ◌<◌, ◌≡◌, ◌≢◌, refl, sym, ap, ◌∙◌, Bool, true, false, true≢false, Option, none,
  some, List, [], ◌∷◌, length, length-append, leb, arith, Bool-cases, inl, inr, ◌⊎◌,
}
use sceptre_pipeline.Floats.{Floats}
use sceptre_pipeline.Numpy.{Numpy}
use sceptre_pipeline.Dict.{StreamId}
use sceptre_pipeline.Queue.{BoundedRawQueue, put, get, take_front, pop_left}
use sceptre_pipeline.Sources.{Put, raw}
use sceptre_pipeline.Runtime.Threads.{
  System, produce, stop, finish, take_item, turn, Step, Reach, produced, consumed, stopping, here,
  next,
}
use sceptre_pipeline.Runtime.Threads.Refinement.{turn_running, turn_stopped, turn_finished}
use sceptre_pipeline.Runtime.Threads.Halting.{WillEnd, produce-WillEnd, turn-WillEnd}

pop_left-length : (xs : List Put) → length (pop_left xs) ≤ length xs
pop_left-length [] = omega arith
pop_left-length (x ∷ xs) = omega arith

put-length : (x : Put) (q : BoundedRawQueue Put) → length (put x q).items ≤ length q.items + 1
unfolding put
put-length x q = elim (Bool-cases (leb q.maxsize (length q.items))) [
  | inl full ↦ rw (full, length-append) (omega (arith, pop_left-length q.items))
  | inr room ↦ rw (room, length-append) (omega arith)
]

abbrev still : Bool → ℕ
still true = 0
still false = 1

-- whether there is an item
abbrev found : List Put → ℕ
found [] = 0
found (x ∷ xs) = 1

found-one : (xs : List Put) → xs ≢ [] → found xs ≡ 1
found-one [] h = absurd (h refl)
found-one (x ∷ xs) h = refl

module _ {F : Type 0} where
  -- What is left to do: each item is to be put and got, the event to be set, `run` to return.
  abbrev pub work : System F → ℕ
  work s = 2 * length s.pending + (length s.queue.items + (still s.stopped + still s.finished))

  pub produce-work :
      (x : Put) (rest : List Put) (s : System F)
      → s.pending ≡ x ∷ rest
      → work (produce x rest s) < work s
  unfolding produce
  produce-work x rest s e = rw e (omega (arith, put-length x s.queue))

  finish-work : (s : System F) → s.finished ≡ false → work (finish s) < work s
  unfolding finish
  finish-work s e = rw e (omega arith)

module _ {F Arr : Type 0} (fl : Floats F) (np : Numpy Arr) where
  take_item-work :
      (now : F) (clock : StreamId → F) (s : System F) (items : List Put)
      → s.queue.items ≡ items
      → s.finished ≡ false
      → work (take_item fl np now clock s (take_front s.queue items)) + found items ≤ work s
  unfolding take_item finish
  take_item-work now clock s [] e on = omega arith
  take_item-work now clock s (Put.shutdown ∷ rest) e on = rw (e, on) (omega arith)
  take_item-work now clock s (raw bytes ∷ rest) e on = rw e (omega arith)

  pub turn-work :
      (now : F) (clock : StreamId → F) (s : System F)
      → work (turn fl np now clock s) ≤ work s
        × ((s.finished ≡ false)
            → (s.stopped ≡ true) ⊎ (s.queue.items ≢ [])
            → work (turn fl np now clock s) < work s)
  unfolding get
  turn-work now clock s = elim (Bool-cases s.finished) [
    | inl over ↦
        rw (turn_finished fl np now clock s over)
          (omega arith, λ on busy. absurd (true≢false (sym over ∙ on)))
    | inr on ↦ elim (Bool-cases s.stopped) [
      | inl halted ↦
          rw (turn_stopped fl np now clock s on halted)
            (omega (arith, finish-work s on), λ e b. finish-work s on)
      | inr going ↦ rw (turn_running fl np now clock s on going) (
          let less = take_item-work now clock s s.queue.items refl on in
          (
            omega (arith, less),
            λ e b. elim b [
              | inl halted ↦ absurd (true≢false (sym halted ∙ going))
              | inr some_item ↦ omega (arith, less, found-one s.queue.items some_item)
            ],
          ))
    ]
  ]

  take_item-pending :
      (now : F) (clock : StreamId → F) (s : System F) (taken : BoundedRawQueue Put × Option Put)
      → (take_item fl np now clock s taken).pending ≡ s.pending
  unfolding take_item finish
  take_item-pending now clock s (q, none) = refl
  take_item-pending now clock s (q, some Put.shutdown) = refl
  take_item-pending now clock s (q, some (raw bytes)) = refl

  -- What no step undoes.
  pub record IsLater (s t : System F) : Type 0 where
    pub less : work t ≤ work s
    pub fewer : length t.pending ≤ length s.pending
    pub over : s.finished ≡ true → t.finished ≡ true
    pub ends : WillEnd fl np s → WillEnd fl np t

  pub turn-IsLater :
      (now : F) (clock : StreamId → F) (s : System F) → IsLater s (turn fl np now clock s)
  unfolding finish
  turn-IsLater now clock s = record {
    less = (turn-work now clock s).0;
    fewer = elim (Bool-cases s.finished) [
      | inl done ↦ rw (turn_finished fl np now clock s done) (omega arith)
      | inr on ↦ elim (Bool-cases s.stopped) [
        | inl halted ↦ rw (turn_stopped fl np now clock s on halted) (omega arith)
        | inr going ↦
            rw
              (turn_running fl np now clock s on going, take_item-pending now clock s (get s.queue))
              (omega arith)
      ]
    ];
    over = λ done. ap (λ t. t.finished) (turn_finished fl np now clock s done) ∙ done;
    ends = turn-WillEnd fl np now clock s;
  }

  Step-IsLater : {s t : System F} → Step fl np s t → IsLater s t
  unfolding stop produce
  Step-IsLater {s} (produced x rest e f) = subst (IsLater s) (sym f) (record {
    less = omega (arith, produce-work x rest s e);
    fewer = rw e (omega arith);
    over = λ done. done;
    ends = produce-WillEnd fl np x rest s e;
  })
  Step-IsLater {s} (consumed now clock f) = subst (IsLater s) (sym f) (turn-IsLater now clock s)
  Step-IsLater {s} (stopping f) =
      subst (IsLater s) (sym f)
        (record { less = omega arith; fewer = omega arith; over = λ done. done; ends = λ w. w })

  pub Reach-IsLater : {s t : System F} → Reach fl np s t → IsLater s t
  Reach-IsLater here = record {
    less = omega arith;
    fewer = omega arith;
    over = λ e. e;
    ends = λ w. w;
  }
  Reach-IsLater (next r st) =
      let a = Reach-IsLater r in
      let b = Step-IsLater st in
      record {
        less = omega (arith, a.less, b.less);
        fewer = omega (arith, a.fewer, b.fewer);
        over = λ e. b.over (a.over e);
        ends = λ w. b.ends (a.ends w);
      }
