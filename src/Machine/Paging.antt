-- ===== src/Machine/Paging.antt =====
-- kernel/memory/paging.c, include/kernel/paging.h and kernel/boot_init.c: the first page tables. The
-- physical memory is a function from the addresses of its words to what a page entry at them says.
use nulix.Common.{
  ℕ, zero, suc, ◌+◌, ◌-◌, ◌*◌, ◌/◌, ◌%◌, ◌^◌, ◌≤◌, ◌<◌, ◌≡◌, refl, ap, ◌∙◌, ◌==◌, ltb, leb, ◌&&◌,
  if◌then◌else◌, Option, none, some, arith, ℕ_discrete,
}
use nulix.Kpm.Init.{kernel_virt_offset}

-- `struct page_entry`, without the bits that are never set.
pub record PageEntry : Type 0 where
  pub present : ℕ
  pub writable : ℕ
  pub user : ℕ
  pub address : ℕ

abbrev pub zero_entry : PageEntry
zero_entry = record { present = 0; writable = 0; user = 0; address = 0 }

abbrev pub Ram : Type 0
Ram = ℕ → PageEntry

abbrev pub put_entry : Ram → ℕ → PageEntry → Ram
put_entry ram p e q = if q == p then e else ram q

-- The entry is zeroed and then set; its fields have 1, 1, 1 and 20 bits.
unfoldable pub page_init : Ram → ℕ → ℕ → ℕ → ℕ → Ram
page_init ram pe addr w u =
    put_entry ram pe
      (record { present = 1; writable = w % 2; user = u % 2; address = addr / 2 ^ 12 % 2 ^ 20 })

unfoldable pub page_clear : Ram → ℕ → Ram
page_clear ram pe = put_entry ram pe zero_entry

-- A memset to zero of `n` bytes from `p`, both multiples of 4.
unfoldable pub zero_bytes : Ram → ℕ → ℕ → Ram
zero_bytes ram p n q = if leb p q && ltb q (p + n) then zero_entry else ram q

abbrev pub page_bytes : ℕ
page_bytes = 4096

abbrev pub page_directory_length : ℕ
page_directory_length = 1024

abbrev pub page_directory : ℕ
page_directory = 0x1000

abbrev pub page_table1 : ℕ
page_table1 = 0x2000

-- The loop over the page table, from entry `pindex` on.
unfoldable pub map_pages : Ram → ℕ → ℕ → Ram
map_pages ram pindex zero = ram
map_pages ram pindex (suc n) =
    map_pages (page_init ram (page_table1 + 4 * pindex) (pindex * page_bytes) 1 0) (pindex + 1) n

-- boot_init, up to the load of cr3 with `page_directory`.
unfoldable pub boot_init : Ram → Ram
boot_init ram =
    let first = zero_bytes ram page_directory page_directory_length in
    let recursive =
      page_init first (page_directory + 4 * (page_directory_length - 1)) page_directory 1 0 in
    let second = zero_bytes recursive page_directory page_directory_length in
    let pages = map_pages second 0 page_directory_length in
    page_init (page_init pages page_directory page_table1 1 0)
      (page_directory + 4 * (kernel_virt_offset / 2 ^ 22)) page_table1 1 0

-- How the processor translates a virtual address: by an entry of the directory and one of a table.
abbrev pub through : PageEntry → ℕ → Option ℕ
through pte offset = if pte.present == 0 then none else some (pte.address * page_bytes + offset)

unfoldable pub translate : Ram → ℕ → ℕ → Option ℕ
translate ram directory v =
    let pde = ram (directory + 4 * (v / 2 ^ 22)) in
    if pde.present == 0
    then none
    else through (ram (pde.address * page_bytes + 4 * (v / page_bytes % 1024))) (v % page_bytes)

map_pages-other :
    (ram : Ram) (pindex n q : ℕ) → q < page_table1 + 4 * pindex → map_pages ram pindex n q ≡ ram q
unfolding map_pages page_init
map_pages-other ram pindex zero q h = refl
map_pages-other ram pindex (suc n) q h =
    map_pages-other (page_init ram (page_table1 + 4 * pindex) (pindex * page_bytes) 1 0)
      (pindex + 1) n q (omega arith)
    ∙ ground arith

-- The page that an entry of the table maps.
abbrev page_of : ℕ → PageEntry
page_of i = record { present = 1; writable = 1; user = 0; address = i }

map_pages-at :
    (ram : Ram) (pindex n i : ℕ)
    → pindex ≤ i
    → i < pindex + n
    → pindex + n ≤ 1024
    → map_pages ram pindex n (page_table1 + 4 * i) ≡ page_of i
unfolding map_pages page_init
map_pages-at ram pindex zero i lo hi m = absurd (omega arith)
map_pages-at ram pindex (suc n) i lo hi m =
    let next = page_init ram (page_table1 + 4 * pindex) (pindex * page_bytes) 1 0 in
    elim (ℕ_discrete i pindex) [
      | yes here ↦
          map_pages-other next (pindex + 1) n (page_table1 + 4 * i) (omega arith)
          ∙ ground (arith, here, m)
      | no later ↦ map_pages-at next (pindex + 1) n i (omega arith) (omega arith) (omega arith)
    ]

boot-table : (ram : Ram) (i : ℕ) → i < 1024 → boot_init ram (page_table1 + 4 * i) ≡ page_of i
unfolding boot_init page_init
boot-table ram i h =
    let first = zero_bytes ram page_directory page_directory_length in
    let recursive =
      page_init first (page_directory + 4 * (page_directory_length - 1)) page_directory 1 0 in
    let second = zero_bytes recursive page_directory page_directory_length in
    ground (
      arith,
      map_pages-at second 0 page_directory_length i (omega arith) (omega arith) (omega arith),
      h,
    )

boot-directory :
    (ram : Ram)
    → (boot_init ram page_directory ≡ page_of 2)
      × (boot_init ram (page_directory + 4 * 768) ≡ page_of 2)
unfolding boot_init page_init
boot-directory ram = (refl, refl)

-- By a directory entry for the table, an address of the first 4 MiB's page and offset.
translate-page :
    (ram : Ram) (v entry : ℕ)
    → ram (page_directory + 4 * (v / 2 ^ 22)) ≡ page_of 2
    → v / page_bytes % 1024 ≡ entry
    → ram (page_table1 + 4 * entry) ≡ page_of entry
    → translate ram page_directory v ≡ some (entry * page_bytes + v % page_bytes)
unfolding translate
translate-page ram v entry d e t = rw (d, e) (ap (λ (p : PageEntry). through p (v % page_bytes)) t)

-- Whatever the memory held, the tables of boot_init translate an address of the first 4 MiB to
-- itself, and the address 0xc0000000 above it to the same place.
pub boot_init-translate :
    (ram : Ram) (v : ℕ)
    → v < 2 ^ 22
    → (translate (boot_init ram) page_directory v ≡ some v)
      × (translate (boot_init ram) page_directory (kernel_virt_offset + v) ≡ some v)
boot_init-translate ram v h =
    let entry = v / page_bytes in
    let (low, high) = boot-directory ram in
    let at = boot-table ram entry (omega arith) in
    let bottom : v / 2 ^ 22 ≡ 0 = omega arith in
    let top : (kernel_virt_offset + v) / 2 ^ 22 ≡ 768 = omega arith in
    let whole : entry * page_bytes + v % page_bytes ≡ v = omega arith in
    let again : entry * page_bytes + (kernel_virt_offset + v) % page_bytes ≡ v = omega arith in
    (
      translate-page (boot_init ram) v entry
            (ap (λ i. boot_init ram (page_directory + 4 * i)) bottom ∙ low) (omega arith) at
          ∙ ap some whole,
      translate-page (boot_init ram) (kernel_virt_offset + v) entry
            (ap (λ i. boot_init ram (page_directory + 4 * i)) top ∙ high) (omega arith) at
          ∙ ap some again,
    )
