-- ===== src/Start/Frames.antt =====
-- The free frames after gather_free_frames.
use mathlib.Core.List.{append_assoc, append-nil}
use sc0x3a.Base.{
  ℕ, zero, suc, ◌+◌, ◌-◌, ◌≡◌, true, ◌&&◌, List, [], ◌∷◌, ◌++◌, if◌then◌else◌, ltb, leb, arith,
  count, count-append,
}
use sc0x3a.Kernel.{Kernel}
use sc0x3a.Kernel.Monad.{Does, done, insert_last, malloc_lem}
use sc0x3a.Start.{gather_down, gather_free_frames, up_page, region_0_pages, kernel_stack_page}

-- `n` numbers from `lowest + n - 1` down.
unfoldable pub down : ℕ → ℕ → List ℕ
down lowest zero = []
down lowest (suc n) = (lowest + n) ∷ down lowest n

count-down :
    (f lowest n : ℕ)
    → count f (down lowest n) ≡ (if leb lowest f && ltb f (lowest + n) then 1 else 0)
unfolding down
count-down f lowest zero = ground arith
count-down f lowest (suc n) = ground (arith, count-down f lowest n)

gather_down_lem :
    (lowest n : ℕ) (k : Kernel)
    → k.mallocs ≡ []
    → gather_down lowest n k ≡ done true (record k { free_frames = k.free_frames ++ down lowest n })
unfolding gather_down down insert_last
gather_down_lem lowest zero k m = rw append-nil
gather_down_lem lowest (suc n) k m = rw (malloc_lem k m) (
    rw (
      gather_down_lem lowest n (record k { free_frames = k.free_frames ++ (lowest + n) ∷ [] }) m,
      append_assoc,
    ))

-- The frames above region 0, and those between the kernel's heap and its stack, each from the top down.
abbrev pub gathered : Kernel → List ℕ
gathered k =
    down region_0_pages (k.boot.total_frames - region_0_pages)
    ++ down (up_page k.boot.kernel_brk) (kernel_stack_page - up_page k.boot.kernel_brk)

pub gather_free_frames_eq :
    (k : Kernel)
    → k.mallocs ≡ []
    → gather_free_frames k ≡ done tt (record k { free_frames = gathered k })
unfolding gather_free_frames
gather_free_frames_eq k m =
    let k₁ = record k { free_frames = [] } in
    let high = down region_0_pages (k.boot.total_frames - region_0_pages) in
    let low = up_page k.boot.kernel_brk in
    rw (malloc_lem k₁ m) (
      rw (gather_down_lem region_0_pages (k.boot.total_frames - region_0_pages) k₁ m)
        (rw (gather_down_lem low (kernel_stack_page - low) (record k { free_frames = high }) m)))

-- A frame is free once where it lies above region 0 and exists, or lies between the page that the
-- kernel's break is rounded up to and the kernel stack, and is not free elsewhere.
pub gathered-count :
    (f : ℕ) (k : Kernel)
    → count f (gathered k) ≡ (
        if leb 128 f && ltb f k.boot.total_frames
        then 1
        else if leb (up_page k.boot.kernel_brk) f && ltb f 126
        then 1
        else 0)
gathered-count f k = ground (
  arith,
  count-append f (down region_0_pages (k.boot.total_frames - region_0_pages))
      (down (up_page k.boot.kernel_brk) (kernel_stack_page - up_page k.boot.kernel_brk)),
  count-down f region_0_pages (k.boot.total_frames - region_0_pages),
  count-down f (up_page k.boot.kernel_brk) (kernel_stack_page - up_page k.boot.kernel_brk),
)

-- Where `malloc` does not fail, gather_free_frames returns and leaves a frame free once if it lies
-- behind region 0 and below the number of frames, or in region 0 from the page that the kernel's break
-- is rounded up to on and below the kernel stack, and any other frame not free.
pub gather_free_frames-count :
    (f : ℕ) (k : Kernel)
    → k.mallocs ≡ []
    → Does
        (λ _ k'. count f k'.free_frames ≡ (
          if leb 128 f && ltb f k.boot.total_frames
          then 1
          else if leb (up_page k.boot.kernel_brk) f && ltb f 126
          then 1
          else 0))
        (gather_free_frames k)
gather_free_frames-count f k m = rw (gather_free_frames_eq k m) (gathered-count f k)
