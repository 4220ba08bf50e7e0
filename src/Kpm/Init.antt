-- ===== src/Kpm/Init.antt =====
-- kernel/memory/kpm.c: `kpm_init`; include/kernel/multiboot.h: the memory map that it reads.
-- The linker's symbols `sk` and `ek` (arch/i386/linker script) are parameters.
pub mod Fresh
pub mod Regions
use nulix.Common.{
  ℕ, zero, suc, ◌+◌, ◌-◌, ◌*◌, ◌/◌, ◌%◌, ◌^◌, ◌==◌, if◌then◌else◌, Option, none, some, List, [],
  ◌∷◌, replicate,
}
use nulix.Kpm.Align.{page_size, u32, align_down, align_next, nbytes_from_nbits}
use nulix.Kpm.Buddy.{Order, Buddy, norders}
use nulix.Kpm.Region.{kpm_enable, kpm_disable}
use mathlib.Core.Option

-- `struct multiboot_mmap_entry`; `addr` and `len` are 64-bit.
pub record MmapEntry : Type 0 where
  pub size : ℕ
  pub addr : ℕ
  pub len : ℕ
  pub type : ℕ

abbrev pub memory_available : ℕ
memory_available = 1

abbrev pub kernel_virt_offset : ℕ
kernel_virt_offset = 0xC0000000

-- `sizeof(buddy_t)`: three words and eleven orders of two words
abbrev pub sizeof_buddy : ℕ
sizeof_buddy = 100

-- The orders from one of `blocks` blocks on, as the loop sizes them and `memset` fills them.
unfoldable pub fresh_orders : ℕ → ℕ → List Order
fresh_orders zero blocks = []
fresh_orders (suc rounds) blocks =
    let order_size = nbytes_from_nbits blocks in
    record { bitmap = replicate order_size 0xff; size = order_size }
    ∷ fresh_orders rounds (blocks / 2)

-- `total_orders_size`
unfoldable pub total_orders_size : ℕ → ℕ → ℕ
total_orders_size zero blocks = 0
total_orders_size (suc rounds) blocks =
    nbytes_from_nbits blocks + total_orders_size rounds (blocks / 2)

unfoldable pub frames_of_memory : ℕ → ℕ
frames_of_memory memkb = align_down (u32 (memkb * 1024) / page_size) 1024

-- `*buddy` before the regions are enabled.
unfoldable pub fresh_buddy : ℕ → Buddy
fresh_buddy memkb =
    let nframes = frames_of_memory memkb in
    let enabled_frames_size = nbytes_from_nbits nframes in
    record {
      nframes = nframes;
      size = sizeof_buddy + enabled_frames_size + total_orders_size norders nframes;
      enabled_frames = replicate enabled_frames_size 0;
      orders = fresh_orders norders nframes;
    }

-- `for (entry = entries; entry->size != 0; entry++)`. The loop ends at an entry of size 0 only, and
-- `none` is a map with no such entry, past whose end the code reads.
unfoldable pub enable_entries : List MmapEntry → Buddy → Option Buddy
enable_entries [] b = none
enable_entries (entry ∷ entries) b =
    if entry.size == 0
    then some b
    else enable_entries entries (
        if entry.type == memory_available then kpm_enable (u32 entry.addr) (u32 entry.len) b else b)

-- The three regions that are never to be allocated: page 0, the kernel, and `*buddy` itself.
unfoldable pub disable_kernel : ℕ → ℕ → Buddy → Buddy
disable_kernel sk ek b =
    let buddy = align_next ek page_size in
    let b1 = kpm_disable 0 page_size b in
    let b2 = kpm_disable sk (u32 (u32 (ek + 2 ^ 32 - kernel_virt_offset) + 2 ^ 32 - sk)) b1 in
    kpm_disable (u32 (buddy + 2 ^ 32 - kernel_virt_offset)) b.size b2

unfoldable pub kpm_init : ℕ → ℕ → List MmapEntry → ℕ → ℕ → Option Buddy
kpm_init sk ek entries count memkb =
    Option.map (disable_kernel sk ek) (enable_entries entries (fresh_buddy memkb))
