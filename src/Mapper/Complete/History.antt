-- ===== src/Mapper/Complete/History.antt =====
-- client/src/mapper.cpp: the order in which a request's reads are filled and finish.
use mathlib.Core.Logic.{◌⊎◌}
use max_embed.Prelude.{ℕ, suc, ◌≤◌, ◌≡◌, sym, subst, ◌∙◌, ap, List, [], ◌∷◌, arith, All, inl, inr}
use max_embed.Mapper.Batch.{ReadCtx}
use max_embed.Mapper.Batch.Layout.{IsNumbered}
use max_embed.Mapper.Complete.{Event, fills, finishes, fails, pops, stores}

abbrev pub Among : ReadCtx → List ReadCtx → Type 0
Among c [] = ⊥
Among c (d ∷ ds) = (c ≡ d) ⊎ Among c ds

-- A history of the reads `cs` without an I/O error: a page is filled before its read finishes;
-- `filled` are the reads that were filled before.
abbrev pub IsHistory : List ReadCtx → List ReadCtx → List Event → Type 0
IsHistory cs filled [] = Unit
IsHistory cs filled (fills c ∷ es) = Among c cs × IsHistory cs (c ∷ filled) es
IsHistory cs filled (finishes c ∷ es) = Among c filled × IsHistory cs filled es
IsHistory cs filled (fails c ∷ es) = ⊥
IsHistory cs filled (pops ∷ es) = IsHistory cs filled es
IsHistory cs filled (stores ∷ es) = IsHistory cs filled es

-- The read finishes in the history.
abbrev pub Finishes : ReadCtx → List Event → Type 0
Finishes c [] = ⊥
Finishes c (fills d ∷ es) = Finishes c es
Finishes c (finishes d ∷ es) = (c ≡ d) ⊎ Finishes c es
Finishes c (fails d ∷ es) = Finishes c es
Finishes c (pops ∷ es) = Finishes c es
Finishes c (stores ∷ es) = Finishes c es

pub All-among :
    (P : ReadCtx → Type 0) (cs : List ReadCtx) (c : ReadCtx) → All P cs → Among c cs → P c
All-among P [] c a m = absurd m
All-among P (d ∷ ds) c a (inl e) = subst P (sym e) a.0
All-among P (d ∷ ds) c a (inr m) = All-among P ds c a.1 m

src-ge : (n : ℕ) (cs : List ReadCtx) (c : ReadCtx) → IsNumbered n cs → Among c cs → n ≤ c.src
src-ge n [] c h m = absurd m
src-ge n (d ∷ ds) c h (inl e) = omega (arith, h.0, ap (λ x. x.src) e)
src-ge n (d ∷ ds) c h (inr m) = omega (arith, src-ge (suc n) ds c h.1 m)

-- Two reads of a request that share a page of the bounce buffer are one.
pub src-injective :
    (n : ℕ) (cs : List ReadCtx) (c d : ReadCtx)
    → IsNumbered n cs
    → Among c cs
    → Among d cs
    → c.src ≡ d.src
    → c ≡ d
src-injective n [] c d h m k e = absurd m
src-injective n (x ∷ xs) c d h (inl p) (inl q) e = p ∙ sym q
src-injective n (x ∷ xs) c d h (inl p) (inr q) e =
    absurd (omega (arith, h.0, ap (λ y. y.src) p, src-ge (suc n) xs d h.1 q))
src-injective n (x ∷ xs) c d h (inr p) (inl q) e =
    absurd (omega (arith, h.0, ap (λ y. y.src) q, src-ge (suc n) xs c h.1 p))
src-injective n (x ∷ xs) c d h (inr p) (inr q) e = src-injective (suc n) xs c d h.1 p q e
