-- ===== src/Program/FlatMemory/Blocks.antt =====
-- Blocks of bytes in a flat memory: what a write leaves at its addresses and outside of them.
use tiny_kernels.Prelude.{
  ℕ, zero, suc, ◌+◌, ◌-◌, ◌<◌, ◌≤◌, ◌≡◌, refl, ap, ◌∙◌, true, false, Option, none, List, [], ◌∷◌,
  arith, leb, ◌⊎◌, inl, inr, length, get_elem?, get_elem?-some,
}
use tiny_kernels.Hardware.{Pte}
use tiny_kernels.Memory.{Memory}
use tiny_kernels.Program.FlatMemory.{
  byte_at, InRegion1, HasOwnFrames, HasWholeFrames, IsWritable, overlay, written, written-overlay,
  written-HasWholeFrames, written-same, KeepsOthers, written-KeepsOthers,
}

get_elem?-none : (xs : List ℕ) (i : ℕ) → length xs ≤ i → get_elem? xs i ≡ none
get_elem?-none [] i h = refl
get_elem?-none (x ∷ xs) zero h = absurd (omega arith)
get_elem?-none (x ∷ xs) (suc i) h = get_elem?-none xs i (omega arith)

-- A flat memory has these bytes from `addr` on.
abbrev pub Holds : (mem : ℕ → Option ℕ) → (addr : ℕ) → List ℕ → Type 0
Holds mem addr bs = (j : ℕ) → j < length bs → mem (addr + j) ≡ get_elem? bs j

overlay-outside :
    (addr : ℕ) (bs : List ℕ) (mem : ℕ → Option ℕ) (b : ℕ)
    → (b < addr) ⊎ (addr + length bs ≤ b)
    → overlay addr bs mem b ≡ mem b
overlay-outside addr bs mem b (inl below) =
    let test : leb addr b ≡ false = ground arith in rw test refl
overlay-outside addr bs mem b (inr above) =
    let test : leb addr b ≡ true = ground arith in
    rw (test, get_elem?-none bs (b - addr) (omega arith)) refl

overlay-Holds : (addr : ℕ) (bs : List ℕ) (mem : ℕ → Option ℕ) → Holds (overlay addr bs mem) addr bs
overlay-Holds addr bs mem j h =
    let test : leb addr (addr + j) ≡ true = ground arith in
    let off : addr + j - addr ≡ j = omega arith in
    let (v, at) = get_elem?-some bs j h in rw (test, off, at) refl

module _ (table : List Pte) (own : HasOwnFrames table) (addr : ℕ) (bs : List ℕ) (m : Memory)
    (whole : HasWholeFrames m) (w : IsWritable table addr (length bs)) where
  pub written-outside :
      (b : ℕ)
      → InRegion1 b
      → (b < addr) ⊎ (addr + length bs ≤ b)
      → byte_at table (written table addr bs m) b ≡ byte_at table m b
  written-outside b rb far =
      written-overlay table own addr bs m b whole w rb
      ∙ overlay-outside addr bs (byte_at table m) b far

  pub written-Holds : Holds (byte_at table (written table addr bs m)) addr bs
  written-Holds j h =
      written-overlay table own addr bs m (addr + j) whole w
        (w (addr + j) (omega arith) (omega arith)).0
      ∙ overlay-Holds addr bs (byte_at table m) j h

-- Two blocks written one after the other, the second one above the first.
pub record TwoWritten (table : List Pte) (x : ℕ) (bs : List ℕ) (y : ℕ) (cs : List ℕ) (m t : Memory)
    : Type 0 where
  pub only_contents : t ≡ record m { contents = t.contents }
  pub other_frames : KeepsOthers table m t
  pub whole : HasWholeFrames t
  pub first : Holds (byte_at table t) x bs
  pub second : Holds (byte_at table t) y cs
  pub outside :
      (b : ℕ)
      → InRegion1 b
      → (b < x) ⊎ (x + length bs ≤ b)
      → (b < y) ⊎ (y + length cs ≤ b)
      → byte_at table t b ≡ byte_at table m b

module _ (table : List Pte) (own : HasOwnFrames table) (x : ℕ) (bs : List ℕ) (y : ℕ) (cs : List ℕ)
    (m : Memory) (whole : HasWholeFrames m) (wx : IsWritable table x (length bs))
    (wy : IsWritable table y (length cs)) (apart : x + length bs ≤ y) where
  pub written-TwoWritten : TwoWritten table x bs y cs m (written table y cs (written table x bs m))
  written-TwoWritten =
      let m1 = written table x bs m in
      let whole1 = written-HasWholeFrames table x bs m whole in
      record {
        only_contents =
            written-same table y cs m1
            ∙ ap (λ (q : Memory). record q { contents = (written table y cs m1).contents })
                (written-same table x bs m);
        other_frames = λ f away.
            written-KeepsOthers table y cs m1 f away ∙ written-KeepsOthers table x bs m f away;
        whole = written-HasWholeFrames table y cs m1 whole1;
        first = λ j h.
            written-outside table own y cs m1 whole1 wy (x + j)
              (wx (x + j) (omega arith) (omega arith)).0 (inl (omega arith))
            ∙ written-Holds table own x bs m whole wx j h;
        second = written-Holds table own y cs m1 whole1 wy;
        outside = λ b rb fx fy.
            written-outside table own y cs m1 whole1 wy b rb fy
            ∙ written-outside table own x bs m whole wx b rb fx;
      }
