-- ===== src/Queue/Lossy.antt =====
-- `put` and `get` of src/sceptre_pipeline/queues.py in any order, against what was put and received.
use sceptre_pipeline.Prelude.{
  ◌+◌, ◌≤◌, ◌<◌, ◌≡◌, refl, sym, ap, ◌∙◌, true, false, Option, none, some, List, [], ◌∷◌, ◌++◌,
  arith, length, leb, Bool-cases, leb→le, leb_false→lt, inl, inr, length-append, append_assoc,
  append-nil,
}
use sceptre_pipeline.Queue.{BoundedRawQueue, put, get, pop_left, take_front}

-- A subsequence: the items of the first list stand in the second in the same order.
pub data Within {A : Type 0} : List A → List A → Type 0 where
  done : Within [] []
  keep : {x : A} {xs ys : List A} → Within xs ys → Within (x ∷ xs) (x ∷ ys)
  skip : {x : A} {xs ys : List A} → Within xs ys → Within xs (x ∷ ys)

Within-keep :
    {A : Type 0} (x : A) {xs ys : List A} → Within xs ys → Within (xs ++ x ∷ []) (ys ++ x ∷ [])
Within-keep x done = keep done
Within-keep x (keep w) = keep (Within-keep x w)
Within-keep x (skip w) = skip (Within-keep x w)

Within-skip : {A : Type 0} (x : A) {xs ys : List A} → Within xs ys → Within xs (ys ++ x ∷ [])
Within-skip x done = skip done
Within-skip x (keep w) = keep (Within-skip x w)
Within-skip x (skip w) = skip (Within-skip x w)

-- A call of one of the threads.
pub data Call (A : Type 0) : Type 0 where
  put_call : A → Call A
  get_call : Call A

module _ {A : Type 0} where
  -- one call, with the items that the consumer has received so far
  abbrev pub received : List A → Option A → List A
  received out none = out
  received out (some x) = out ++ x ∷ []

  unfoldable pub run : List (Call A) → BoundedRawQueue A → List A → BoundedRawQueue A × List A
  run [] q out = (q, out)
  run (put_call x ∷ calls) q out = run calls (put x q) out
  run (get_call ∷ calls) q out = let (q', o) = get q in run calls q' (received out o)

  -- the items that the producer has put
  abbrev pub produced : List (Call A) → List A
  produced [] = []
  produced (put_call x ∷ calls) = x ∷ produced calls
  produced (get_call ∷ calls) = produced calls

  -- All that was put is what has left the queue and then what is in it; what has left was received,
  -- in order, or evicted and counted; and the queue is within its size.
  pub record Tracks (history : List A) (out : List A) (q : BoundedRawQueue A) : Type 0 where
    pub gone : List A
    pub order : history ≡ gone ++ q.items
    pub delivered : Within out gone
    pub counted : length gone ≡ length out + q.dropped
    pub bounded : length q.items ≤ q.maxsize
    pub positive : 0 < q.maxsize

  put_of_full :
      (q : BoundedRawQueue A) (x : A)
      → leb q.maxsize (length q.items) ≡ true
      → put x q ≡ record q { items = pop_left q.items ++ x ∷ []; dropped = q.dropped + 1 }
  unfolding put
  put_of_full q x e = rw e refl

  put_of_room :
      (q : BoundedRawQueue A) (x : A)
      → leb q.maxsize (length q.items) ≡ false
      → put x q ≡ record q { items = q.items ++ x ∷ [] }
  unfolding put
  put_of_room q x e = rw e refl

  evicted :
      (q : BoundedRawQueue A) (items h out gone : List A) (x : A)
      → h ≡ gone ++ items
      → Within out gone
      → length gone ≡ length out + q.dropped
      → q.maxsize ≡ length items
      → 0 < q.maxsize
      → Tracks
          (h ++ x ∷ [])
          out
          (record q { items = pop_left items ++ x ∷ []; dropped = q.dropped + 1 })
  evicted q [] h out gone x o w n m p = absurd (omega arith)
  evicted q (y ∷ ys) h out gone x o w n m p = record {
    gone = gone ++ y ∷ [];
    order =
        rw (o, append_assoc gone (y ∷ ys) (x ∷ []), append_assoc gone (y ∷ []) (ys ++ x ∷ [])) refl;
    delivered = Within-skip y w;
    counted = omega (arith, length-append gone (y ∷ []));
    bounded = omega (arith, length-append ys (x ∷ []));
    positive = p;
  }

  pub Tracks-put :
      (h out : List A) (q : BoundedRawQueue A) (x : A)
      → Tracks h out q
      → Tracks (h ++ x ∷ []) out (put x q)
  Tracks-put h out q x t = elim (Bool-cases (leb q.maxsize (length q.items))) [
    | inl e ↦ rw (put_of_full q x e) (
        evicted q q.items h out t.gone x t.order t.delivered t.counted
          (omega (arith, leb→le q.maxsize (length q.items) e, t.bounded)) t.positive)
    | inr e ↦ rw (put_of_room q x e) (record {
      gone = t.gone;
      order = ap (◌++ x ∷ []) t.order ∙ append_assoc t.gone q.items (x ∷ []);
      delivered = t.delivered;
      counted = t.counted;
      bounded =
          omega (arith, leb_false→lt q.maxsize (length q.items) e, length-append q.items (x ∷ []));
      positive = t.positive;
    })
  ]

  taken :
      (q : BoundedRawQueue A) (items h out gone : List A)
      → h ≡ gone ++ items
      → Within out gone
      → length gone ≡ length out + q.dropped
      → length items ≤ q.maxsize
      → 0 < q.maxsize
      → q.items ≡ items
      → Tracks h (received out (take_front q items).1) (take_front q items).0
  taken q [] h out gone o w n m p e = record {
    gone = gone;
    order = rw e o;
    delivered = w;
    counted = n;
    bounded = rw e m;
    positive = p;
  }
  taken q (y ∷ ys) h out gone o w n m p e = record {
    gone = gone ++ y ∷ [];
    order = o ∙ sym (append_assoc gone (y ∷ []) ys);
    delivered = Within-keep y w;
    counted = omega (arith, length-append gone (y ∷ []), length-append out (y ∷ []));
    bounded = omega arith;
    positive = p;
  }

  pub Tracks-get :
      (h out : List A) (q : BoundedRawQueue A)
      → Tracks h out q
      → Tracks h (received out (get q).1) (get q).0
  unfolding get
  Tracks-get h out q t =
      taken q q.items h out t.gone t.order t.delivered t.counted t.bounded t.positive refl

  -- Suppose that what has been put on the queue is what has left it and then what is in it, that
  -- the consumer received a subsequence of what left, that the rest of what left is counted in
  -- `dropped`, and that the queue is within its positive size. Then that is so after any
  -- interleaving of puts and gets.
  pub run-Tracks :
      (calls : List (Call A)) (h out : List A) (q : BoundedRawQueue A)
      → Tracks h out q
      → Tracks (h ++ produced calls) (run calls q out).1 (run calls q out).0
  unfolding run
  run-Tracks [] h out q t = rw (append-nil h) t
  run-Tracks (put_call x ∷ calls) h out q t =
      rw (sym (append_assoc h (x ∷ []) (produced calls)))
        (run-Tracks calls (h ++ x ∷ []) out (put x q) (Tracks-put h out q x t))
  run-Tracks (get_call ∷ calls) h out q t = run-Tracks calls h _ _ (Tracks-get h out q t)
