-- ===== src/Model/Build/Taken.antt =====
-- Lists of ids that are taken, which grow by fresh ids.
use mathlib.Core.List.{
  Mem, Mem-prop, not-mem-nil, mem-cons, mem-append, mem-cons_of_mem, Nodup, Nodup-nil, Nodup-cons,
  map-append, append_assoc,
}
use mathlib.Core.HLevel.{⊥_prop}
use mathlib.Core.Logic.Or
use sysml_federation.Base.{
  Bool, false, ◌≡◌, refl, sym, ap, ◌∙◌, subst, List, [], ◌∷◌, ◌++◌, Bytes, bytes_eq, map, one_of,
  one_of-not, if◌then◌else◌,
}
use sysml_federation.Model.Declare.{choose_id}
use sysml_federation.Model.Outcome.Holds.{Holds, returns, Holds-refuse}
use sysml_federation.Model.Outcome.{Source}
use sysml_federation.Syntax.Token.{Span}

-- The list has no id twice, and all of its ids are taken.
pub record AreTaken (list ids : List Bytes) : Type 0 where
  pub once : Nodup list
  pub taken : (x : Bytes) → Mem x list → Mem x ids

pub no_ids-AreTaken : AreTaken [] []
no_ids-AreTaken = record { once = Nodup-nil; taken = λ x m. m }

pub Nodup-snoc :
    (list : List Bytes) (x : Bytes) → Nodup list → ¬ Mem x list → Nodup (list ++ x ∷ [])
Nodup-snoc [] x once fresh = Nodup-cons.1 (not-mem-nil, Nodup-nil)
Nodup-snoc (y ∷ list) x once fresh =
    let own : (¬ Mem y list) × Nodup list = Nodup-cons.0 once in
    Nodup-cons.1 (
      λ m. Or.elim ⊥_prop (mem-append.0 m) own.0 (λ r.
          Or.elim ⊥_prop (mem-cons.0 r) (λ same. fresh (mem-cons.1 (Or.inl (sym same))))
            not-mem-nil),
      Nodup-snoc list x own.1 (λ m. fresh (mem-cons_of_mem y m)),
    )

AreTaken-snoc :
    (list ids : List Bytes) (x : Bytes)
    → AreTaken list ids
    → ¬ Mem x ids
    → AreTaken (list ++ x ∷ []) (x ∷ ids)
AreTaken-snoc list ids x t fresh = record {
  once = Nodup-snoc list x t.once (λ m. fresh (t.taken x m));
  taken = λ y m.
      Or.elim Mem-prop (mem-append.0 m) (λ f. mem-cons_of_mem x (t.taken y f))
        (λ r.
          Or.elim Mem-prop (mem-cons.0 r) (λ same. mem-cons.1 (Or.inl same))
            (λ n. absurd (not-mem-nil n)));
}

pub choose_id-fresh :
    (s : Source) (short qualified : Bytes) (at : Span) (ids : List Bytes)
    → Holds (λ r. (¬ Mem r.0 ids) × (r.1 ≡ r.0 ∷ ids)) (choose_id s short qualified at ids)
unfolding choose_id
choose_id-fresh s short qualified at ids =
    let id = if bytes_eq short [] then qualified else short in
    Holds-refuse (one_of ids id) s at _ (λ free. returns (one_of-not ids id free, refl))

abbrev pub AllFalse : List Bool → Type 0
AllFalse [] = Unit
AllFalse (b ∷ bs) = (b ≡ false) × AllFalse bs

pub snoc-AllFalse :
    {A : Type 0} (h : A → Bool) (list : List A) (a : A)
    → AllFalse (map h list)
    → h a ≡ false
    → AllFalse (map h (list ++ a ∷ []))
snoc-AllFalse h [] a all e = (e, tt)
snoc-AllFalse h (b ∷ list) a (own, all) e = (own, snoc-AllFalse h list a all e)

-- A new element at the end, behind those of other kinds.
pub map-snoc-AreTaken :
    {A : Type 0} (id_of : A → Bytes) (front : List Bytes) (list : List A) (a : A) (ids : List Bytes)
    → AreTaken (front ++ map id_of list) ids
    → ¬ Mem (id_of a) ids
    → AreTaken (front ++ map id_of (list ++ a ∷ [])) (id_of a ∷ ids)
map-snoc-AreTaken id_of front list a ids t fresh =
    let regroup : (front ++ map id_of list) ++ id_of a ∷ [] ≡ front ++ map id_of (list ++ a ∷ []) =
      append_assoc front (map id_of list) (id_of a ∷ [])
      ∙ ap (◌++◌ front) (sym (map-append id_of list (a ∷ []))) in
    subst (λ l. AreTaken l (id_of a ∷ ids)) regroup
      (AreTaken-snoc (front ++ map id_of list) ids (id_of a) t fresh)
