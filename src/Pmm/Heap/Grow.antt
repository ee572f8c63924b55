-- ===== src/Pmm/Heap/Grow.antt =====
-- A new page: `init_page`, its first block taken, and its place at the end of the CPU's list.
pub mod Fresh
pub mod Lists
use projects_demonstration.Base.{
  ℕ, zero, suc, ◌+◌, ◌-◌, ◌*◌, ◌%◌, ◌^◌, ◌≤◌, ◌<◌, ◌≡◌, ◌≢◌, refl, ap, sym, ◌∙◌, arith, update,
  if◌then◌else◌, ◌==◌, leb, Option, none, some, set, Bool, true, false, inl, inr, eq-cases,
  Bool-cases, eq→==, ne→==,
}
use mathlib.Core.Path.{ap₂}
use native.Mathlib.Nat.{mod-eq_of_lt}
use projects_demonstration.Word.{ctz}
use projects_demonstration.Pmm.Layout.{Arch, Undefined, width, page_sz, hdr_size}
use projects_demonstration.Pmm.Layout.Classes.{Class, bytes, bytes_pos}
use projects_demonstration.Pmm.Page.{Spinlock, Page, word, acquire, release, init_page, loc}
use projects_demonstration.Pmm.Page.Bitmap.{IsRaw, IsPage, IsOpen, offset, offset-le}
use projects_demonstration.Pmm.Heap.{Heap, Run, done, grow, grow_locked, install, add_ptr, sub_ptr}
use projects_demonstration.Pmm.Heap.Chain.{
  page_addr, page_at, block_addr, page_addr-injective, page_at-update_ne, sub_ptr_lem, Pages,
  IsList, IsArea, IsHeap, last-lt, Chain-owner, Chain-links,
}
use Fresh.{fresh_page, fresh_page-Takes, fresh_page-IsOpen, fresh_offset, page}
use Lists.{one_more, other_list, own_list}

acquire-open : (lk : Spinlock) → lk.locked ≡ 0 → acquire lk ≡ some (record lk { locked = 1 })
unfolding acquire
acquire-open lk free = ground arith

release-acquired : (lk : Spinlock) → lk.locked ≡ 0 → release (record lk { locked = 1 }) ≡ lk
unfolding release
release-acquired lk free = ground arith

module _ (u : Undefined) {a : Arch} (c : Class) {s : Heap} {g : Pages} (h : IsHeap a s g) (cpu : ℕ)
    (cpu_lt : cpu < s.ncpu) where
  abbrev pub new_page : ℕ
  new_page = page_addr s g.count

  abbrev pub fresh : Page
  fresh = fresh_page u a c (h.raw new_page)

  abbrev pub mine : IsList s g cpu
  mine = h.lists cpu cpu_lt

  abbrev pub linked_mem : ℕ → Page
  linked_mem =
      update (update s.mem new_page fresh) (page_addr s mine.last)
        (record (page_at s mine.last) { page_list = new_page })

  -- The state after a new page.
  abbrev pub grown : Heap
  grown = record s {
    last_page_addr = page_addr s (suc g.count);
    mem = linked_mem;
    tail_page = update s.tail_page cpu new_page;
  }

  abbrev pub first_block : ℕ
  first_block = ctz (width a) (word (page u a c (h.raw new_page)) 0)

  pub page_at-grown :
      (k : ℕ)
      → page_at grown k ≡ (
          if k == mine.last
          then record (page_at s mine.last) { page_list = new_page }
          else if k == g.count
          then fresh
          else page_at s k)
  page_at-grown k =
      grind (arith, page_addr-injective s k mine.last, page_addr-injective s k g.count)

  pub last-ne : mine.last ≢ g.count
  last-ne e = omega (arith, last-lt mine.chain)

  install-grown :
      page_addr s (suc g.count) < s.end
      → install u a cpu (bytes c) (page_addr s mine.last) new_page s
        ≡ (block_addr a s g.count c 0 first_block, grown)
  unfolding install
  install-grown room = λ i. (
    returned i,
    record s {
      last_page_addr = next i;
      mem = linked i;
      tail_page = update s.tail_page cpu new_page;
    },
  )
    where
      returned :
          add_ptr a
            (new_page + hdr_size)
            (loc u a (word (page u a c (h.raw new_page)) 0) (bytes c) * bytes c)
          ≡ block_addr a s g.count c 0 first_block
      returned =
          ap (add_ptr a (new_page + hdr_size)) (fresh_offset u a c (h.raw new_page))
          ∙ mod-eq_of_lt (
              omega (
                arith,
                room,
                h.area.fits,
                offset-le a c 0 first_block (fresh_page-Takes u a c (h.raw new_page)).block,
                bytes_pos c,
              ))

      next : add_ptr a new_page page_sz ≡ page_addr s (suc g.count)
      next = mod-eq_of_lt (omega (arith, h.area.fits)) ∙ omega arith

      linked :
          update
            (update s.mem new_page fresh)
            (page_addr s mine.last)
            (record (update s.mem new_page fresh (page_addr s mine.last)) { page_list = new_page })
          ≡ linked_mem
      linked =
          ap
            (λ p.
              update (update s.mem new_page fresh) (page_addr s mine.last)
                (record p { page_list = new_page }))
            (page_at-update_ne s mine.last g.count fresh last-ne)

  grow-open : grow u a cpu (bytes c) s ≡ (
      if leb (sub_ptr a s.end page_sz) s.last_page_addr
      then done (0, s)
      else done (install u a cpu (bytes c) (s.tail_page cpu) s.last_page_addr s))
  unfolding grow grow_locked
  grow-open =
      rw (acquire-open s.global_lk h.global_free, grow) refl
      ∙ ap
          (λ lk.
            if leb (sub_ptr a s.end page_sz) s.last_page_addr
            then done (0, record s { global_lk = lk })
            else done (
                install u a cpu (bytes c) (s.tail_page cpu) s.last_page_addr
                  (record s { global_lk = lk })))
          (release-acquired s.global_lk h.global_free)

  no_room :
      (b : Bool)
      → leb (sub_ptr a s.end page_sz) s.last_page_addr ≡ b
      → grow u a cpu (bytes c) s ≡ (
          if b
          then done (0, s)
          else done (install u a cpu (bytes c) (s.tail_page cpu) s.last_page_addr s))
  no_room b e =
      grow-open
      ∙ ap
          (λ x.
            if x
            then done (0, s)
            else done (install u a cpu (bytes c) (s.tail_page cpu) s.last_page_addr s))
          e

  room_left : sub_ptr a s.end page_sz ≡ s.end - page_sz
  room_left = sub_ptr_lem a s.end page_sz h.area.room h.area.fits

  -- No page fits any more: NULL, and the state is as it was.
  pub grow-full : s.end ≤ page_addr s (suc g.count) → grow u a cpu (bytes c) s ≡ done (0, s)
  grow-full full = no_room true (ground (arith, room_left, h.area.next_page))

  pub grow-grown :
      page_addr s (suc g.count) < s.end
      → grow u a cpu (bytes c) s ≡ done (block_addr a s g.count c 0 first_block, grown)
  grow-grown room =
      no_room false (ground (arith, room_left, h.area.next_page))
      ∙ ap₂ (λ tail new. done (install u a cpu (bytes c) tail new s)) mine.last_at h.area.next_page
      ∙ ap done (install-grown room)
