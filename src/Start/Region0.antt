-- ===== src/Start/Region0.antt =====
-- The page table that `InitializeVM` of src/init.c leaves.
use tiny_kernels.Prelude.{
  ℕ, zero, suc, ◌+◌, ◌-◌, ◌<◌, ◌≤◌, ◌≡◌, refl, ap, sym, ◌∙◌, Bool, true, false, ◌&&◌, Option, some,
  List, [], ◌∷◌, arith, ltb, leb, subst, Bool-cases, ◌==◌, if◌then◌else◌, length, get_elem?,
  replicate, length-replicate, get_elem?-replicate,
}
use tiny_kernels.Prelude.{inl, inr}
use tiny_kernels.Prelude.Int.{pos}
use tiny_kernels.Prelude.Run.{ok, Returns}
use tiny_kernels.Hardware.{
  Pte, invalid_pte, max_pt_len, prot_read_write, prot_read_exec, kstack_pages, kstack_start_page,
}
use tiny_kernels.Memory.{Memory, mapped, modify}
use tiny_kernels.Memory.Frames.{length-modify}
use tiny_kernels.Memory.Tables.{update_region0-ok}
use tiny_kernels.Start.{map_identity, clear_region0, initialize_vm}

-- The entry of a page that is mapped to the frame of the same number.
abbrev pub identity_pte : (vpn prot : ℕ) → Pte
identity_pte vpn prot = mapped (pos vpn) prot invalid_pte

identity : (rounds vpn prot : ℕ) → List Pte → List Pte
identity zero vpn prot t = t
identity (suc n) vpn prot t = identity n (vpn + 1) prot (modify t vpn (mapped (pos vpn) prot))

map_identity-ok :
    (n vpn prot : ℕ) (m : Memory)
    → vpn + n ≤ length m.pt_region0
    → map_identity n vpn prot m ≡ ok tt (record m { pt_region0 = identity n vpn prot m.pt_region0 })
unfolding map_identity identity
map_identity-ok zero vpn prot m h = refl
map_identity-ok (suc n) vpn prot m h =
    rw (update_region0-ok vpn (mapped (pos vpn) prot) m (omega arith)) (
      map_identity-ok n (vpn + 1) prot _
        (rw (length-modify m.pt_region0 vpn (mapped (pos vpn) prot)) (omega arith)))

length-identity : (n vpn prot : ℕ) (t : List Pte) → length (identity n vpn prot t) ≡ length t
unfolding identity
length-identity zero vpn prot t = refl
length-identity (suc n) vpn prot t =
    length-identity n (vpn + 1) prot (modify t vpn (mapped (pos vpn) prot))
    ∙ length-modify t vpn (mapped (pos vpn) prot)

get_elem?-modify_const :
    (t : List Pte) (g : Pte → Pte) (c : Pte) (i j : ℕ)
    → ((x : Pte) → g x ≡ c)
    → j < length t
    → get_elem? (modify t i g) j ≡ (if i == j then some c else get_elem? t j)
get_elem?-modify_const [] g c i j same h = absurd (omega arith)
get_elem?-modify_const (x ∷ t) g c zero zero same h = ap some (same x)
get_elem?-modify_const (x ∷ t) g c zero (suc j) same h = ground arith
get_elem?-modify_const (x ∷ t) g c (suc i) zero same h = ground arith
get_elem?-modify_const (x ∷ t) g c (suc i) (suc j) same h =
    ground (arith, get_elem?-modify_const t g c i j same (omega arith))

get_elem?-identity :
    (n vpn prot j : ℕ) (t : List Pte)
    → j < length t
    → get_elem? (identity n vpn prot t) j
      ≡ (if leb vpn j && ltb j (vpn + n) then some (identity_pte j prot) else get_elem? t j)
unfolding identity
get_elem?-identity zero vpn prot j t h = ground arith
get_elem?-identity (suc n) vpn prot j t h =
    let t' = modify t vpn (mapped (pos vpn) prot) in
    ground (
      arith,
      get_elem?-identity n (vpn + 1) prot j t' (rw (length-modify t vpn (mapped (pos vpn) prot)) h),
      get_elem?-modify_const t (mapped (pos vpn) prot) (identity_pte vpn prot) vpn j (λ x. refl) h,
    )

some-if :
    {A : Type 0} (q r : Bool) (w x n : A)
    → (if q then some w else if r then some x else some n)
      ≡ some (if q then w else if r then x else n)
some-if true r w x n = refl
some-if false true w x n = refl
some-if false false w x n = refl

-- Three layers of writes, where the ranges do not overlap.
three_ranges :
    {A : Type 0} (a b c j : ℕ) (none_there x w : A) (r1 r2 r3 : Option A)
    → c ≤ 126
    → j < 128
    → r1 ≡ (if leb a j && ltb j b then some x else some none_there)
    → r2 ≡ (if leb b j && ltb j c then some w else r1)
    → r3 ≡ (if leb 126 j && ltb j 128 then some w else r2)
    → r3
      ≡ some (
          if leb 126 j
          then w
          else if leb b j && ltb j c
          then w
          else if leb a j && ltb j b
          then x
          else none_there)
three_ranges a b c j none_there x w r1 r2 r3 low small e1 e2 e3 = elim (Bool-cases (leb 126 j)) [
  | inl above ↦ let in_stack : ltb j 128 ≡ true = ground arith in rw (e3, above, in_stack) refl
  | inr below ↦
      rw (e3, below, e2, e1) (some-if (leb b j && ltb j c) (leb a j && ltb j b) w x none_there)
]

range_end : (a b : ℕ) → a ≤ b → a + (b - a) ≡ b
range_end a b h = omega arith

-- The entry of a page: the text can be read and executed, the data, heap and kernel stack read and
-- written, and no other page is valid.
abbrev pub boot_pte : (text data_page brk vpn : ℕ) → Pte
boot_pte text data_page brk vpn =
    if leb kstack_start_page vpn
    then identity_pte vpn prot_read_write
    else if leb data_page vpn && ltb vpn brk
    then identity_pte vpn prot_read_write
    else if leb text vpn && ltb vpn data_page
    then identity_pte vpn prot_read_exec
    else invalid_pte

-- A whole table with these entries, in a memory that is the same otherwise.
pub record Booted (text data_page brk : ℕ) (m t : Memory) : Type 0 where
  pub size : length t.pt_region0 ≡ max_pt_len
  pub pages :
      (vpn : ℕ)
      → vpn < max_pt_len
      → get_elem? t.pt_region0 vpn ≡ some (boot_pte text data_page brk vpn)
  pub frames : t.frame_table ≡ m.frame_table
  pub registers : t.registers ≡ m.registers

-- Where the text, the data and the break follow each other below the kernel stack, `InitializeVM`
-- returns. Region 0 then has a whole table: the pages from the text up to the data can be read and
-- executed, those from the data up to the break and the two of the kernel stack read and written,
-- each maps the frame of its own number, and no other page is valid, whatever the table held
-- before. The frame table and the registers are unchanged.
pub initialize_vm-Booted :
    (text data_page brk : ℕ) (m : Memory)
    → text ≤ data_page
    → data_page ≤ brk
    → brk ≤ kstack_start_page
    → Returns (λ _. Booted text data_page brk m) (initialize_vm text data_page brk m)
unfolding initialize_vm clear_region0
initialize_vm-Booted text data_page brk m below_data below_brk below_stack =
    let t0 = replicate max_pt_len invalid_pte in
    let t1 = identity (data_page - text) text prot_read_exec t0 in
    let t2 = identity (brk - data_page) data_page prot_read_write t1 in
    let s0 : length t0 ≡ 128 = length-replicate max_pt_len invalid_pte in
    let s1 : length t1 ≡ 128 = length-identity (data_page - text) text prot_read_exec t0 ∙ s0 in
    let s2 : length t2 ≡ 128 =
      length-identity (brk - data_page) data_page prot_read_write t1 ∙ s1 in
    rw
      (map_identity-ok (data_page - text) text prot_read_exec (record m { pt_region0 = t0 })
        (omega (arith, s0)))
      (rw
        (map_identity-ok (brk - data_page) data_page prot_read_write (record m { pt_region0 = t1 })
          (omega (arith, s1)))
        (rw
          (map_identity-ok kstack_pages kstack_start_page prot_read_write
            (record m { pt_region0 = t2 }) (omega (arith, s2)))
          (record {
            size = length-identity kstack_pages kstack_start_page prot_read_write t2 ∙ s2;
            pages = λ j h.
                three_ranges text data_page brk j invalid_pte (identity_pte j prot_read_exec)
                  (identity_pte j prot_read_write) (get_elem? t1 j) (get_elem? t2 j) _ below_stack h
                  (rw (sym (get_elem?-replicate max_pt_len invalid_pte j h)) (
                    subst
                      (λ e. get_elem? t1 j ≡ (
                        if leb text j && ltb j e
                        then some (identity_pte j prot_read_exec)
                        else get_elem? t0 j))
                      (range_end text data_page below_data)
                      (get_elem?-identity (data_page - text) text prot_read_exec j t0
                        (omega (arith, s0)))))
                  (subst
                    (λ e. get_elem? t2 j ≡ (
                      if leb data_page j && ltb j e
                      then some (identity_pte j prot_read_write)
                      else get_elem? t1 j))
                    (range_end data_page brk below_brk)
                    (get_elem?-identity (brk - data_page) data_page prot_read_write j t1
                      (omega (arith, s1))))
                  (get_elem?-identity kstack_pages kstack_start_page prot_read_write j t2
                    (omega (arith, s2)));
            frames = refl;
            registers = refl;
          })))
