-- ===== src/Runtime/Threads/Items.antt =====
-- What the loop of src/sceptre_pipeline/runtime.py got, as the queue gave it and in parts.
use sceptre_pipeline.Prelude.{
  ◌≡◌, refl, ap, Bool, true, false, true≢false, List, [], ◌∷◌, ◌++◌, append_assoc, if◌then◌else◌,
}
use sceptre_pipeline.Floats.{Floats}
use sceptre_pipeline.Numpy.{Numpy}
use sceptre_pipeline.Sources.{Put, raw}
use sceptre_pipeline.Runtime.{Pipeline, Item, timeout, datagram, poll, handle, loop}

module _ {F : Type 0} where
  -- what the loop got from the queue
  abbrev pub puts_of : List (Item F) → List Put
  puts_of [] = []
  puts_of (Item.shutdown ∷ items) = Put.shutdown ∷ puts_of items
  puts_of (timeout clock ∷ items) = puts_of items
  puts_of (datagram bytes now clock ∷ items) = raw bytes ∷ puts_of items

  pub puts_of-append : (xs ys : List (Item F)) → puts_of (xs ++ ys) ≡ puts_of xs ++ puts_of ys
  puts_of-append [] ys = refl
  puts_of-append (Item.shutdown ∷ xs) ys = ap (Put.shutdown ∷◌) (puts_of-append xs ys)
  puts_of-append (timeout clock ∷ xs) ys = puts_of-append xs ys
  puts_of-append (datagram bytes now clock ∷ xs) ys = ap (raw bytes ∷◌) (puts_of-append xs ys)

  -- without the end-of-stream mark
  abbrev pub IsOpen : List (Item F) → Type 0
  IsOpen [] = Unit
  IsOpen (Item.shutdown ∷ items) = ⊥
  IsOpen (timeout clock ∷ items) = IsOpen items
  IsOpen (datagram bytes now clock ∷ items) = IsOpen items

  pub IsOpen-append : (xs ys : List (Item F)) → IsOpen xs → IsOpen ys → IsOpen (xs ++ ys)
  IsOpen-append [] ys h k = k
  IsOpen-append (Item.shutdown ∷ xs) ys h k = absurd h
  IsOpen-append (timeout clock ∷ xs) ys h k = IsOpen-append xs ys h k
  IsOpen-append (datagram bytes now clock ∷ xs) ys h k = IsOpen-append xs ys h k

  -- The loop got the mark, and got it last.
  abbrev pub Ends : List (Item F) → Type 0
  Ends items = (xs : List (Item F)) × IsOpen xs × (items ≡ xs ++ Item.shutdown ∷ [])

pub of_else : (b : Bool) (A B : Type 0) → b ≡ false → (if b then A else B) → B
of_else false A B e h = h
of_else true A B e h = absurd (true≢false e)

pub to_else : (b : Bool) (A B : Type 0) → b ≡ false → B → (if b then A else B)
to_else false A B e h = h
to_else true A B e h = absurd (true≢false e)

module _ {F Arr : Type 0} (fl : Floats F) (np : Numpy Arr) where
  -- The loop goes on where it was.
  pub loop-append :
      (xs ys : List (Item F)) (p : Pipeline F)
      → IsOpen xs
      → loop fl np (xs ++ ys) p ≡ (
        (loop fl np ys (loop fl np xs p).0).0,
        (loop fl np xs p).1 ++ (loop fl np ys (loop fl np xs p).0).1,
      )
  unfolding loop
  loop-append [] ys p open_loop = refl
  loop-append (Item.shutdown ∷ xs) ys p open_loop = absurd open_loop
  loop-append (timeout clock ∷ xs) ys p open_loop =
      rw (loop-append xs ys (poll fl np clock p).0 open_loop, append_assoc) refl
  loop-append (datagram bytes now clock ∷ xs) ys p open_loop =
      rw (loop-append xs ys (handle fl np bytes now clock p).0 open_loop, append_assoc) refl
