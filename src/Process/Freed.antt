-- ===== src/Process/Freed.antt =====
-- What the loops over a page table give back, in sys_Exit and load_program.
use sc0x3a.Base.{
  ℕ, ◌+◌, ◌≡◌, refl, ◌&&◌, true, false, List, [], ◌∷◌, ◌==◌, if◌then◌else◌, arith, count, map,
}
use sc0x3a.Kernel.{Kernel, Pte}
use sc0x3a.Kernel.Monad.{Does, done, malloc_lem, set_pcb}
use sc0x3a.Kernel.Frames.{free_frame}
use sc0x3a.Scheduler.{update_pcb}
use sc0x3a.Process.Exit.{free_page, free_pages, free_memory}

-- The entry after its frame is given back.
abbrev pub retired : Pte → Pte
retired e = if e.valid then record e { valid = false; prot = 0 } else e

-- The frames of the valid entries, the last in front, before `fs`.
unfoldable pub returned : List Pte → List ℕ → List ℕ
returned [] fs = fs
returned (e ∷ es) fs = returned es (if e.valid then e.pfn ∷ fs else fs)

free_page_lem :
    (e : Pte) (k : Kernel)
    → k.mallocs ≡ []
    → free_page e k ≡ done (retired e) (record k { free_frames = returned (e ∷ []) k.free_frames })
unfolding free_page free_frame returned
free_page_lem e k m = ground (arith, malloc_lem k m)

pub free_pages_lem :
    (es : List Pte) (k : Kernel)
    → k.mallocs ≡ []
    → free_pages es k ≡ done (map retired es) (record k { free_frames = returned es k.free_frames })
unfolding free_pages returned
free_pages_lem [] k m = refl
free_pages_lem (e ∷ es) k m =
    rw (free_page_lem e k m)
      (rw (free_pages_lem es (record k { free_frames = returned (e ∷ []) k.free_frames }) m))

-- How often a frame stands in the valid entries.
unfoldable pub held : ℕ → List Pte → ℕ
held f [] = 0
held f (e ∷ es) = (if e.valid && (f == e.pfn) then 1 else 0) + held f es

pub count-returned :
    (f : ℕ) (es : List Pte) (fs : List ℕ) → count f (returned es fs) ≡ held f es + count f fs
unfolding returned held
count-returned f [] fs = ground arith
count-returned f (e ∷ es) fs =
    ground (arith, count-returned f es (e.pfn ∷ fs), count-returned f es fs)

held-retired : (f : ℕ) (es : List Pte) → held f (map retired es) ≡ 0
unfolding held
held-retired f [] = refl
held-retired f (e ∷ es) = ground (arith, held-retired f es)

freed_count :
    (f : ℕ) (e₀ e₁ : Pte) (es : List Pte) (fs : List ℕ)
    → count f (returned (e₁ ∷ []) (returned (e₀ ∷ []) (returned es fs)))
      ≡ held f (e₀ ∷ e₁ ∷ es) + count f fs
unfolding held
freed_count f e₀ e₁ es fs = omega (
  arith,
  count-returned f (e₁ ∷ []) (returned (e₀ ∷ []) (returned es fs)),
  count-returned f (e₀ ∷ []) (returned es fs),
  count-returned f es fs,
)

-- The page table of region 1 and the entries of the kernel stack.
abbrev pub entries : ℕ → Kernel → List Pte
entries p k = let c = k.pcbs p in c.k_stack_0 ∷ c.k_stack_1 ∷ c.u_page_table

-- The state in which the frames of the process have been given back.
abbrev pub freed : ℕ → Kernel → Kernel
freed p k =
    let c = k.pcbs p in
    let k₁ = record k {
      free_frames = returned c.u_page_table k.free_frames;
      pcbs = set_pcb k.pcbs p (record c { u_page_table = map retired c.u_page_table });
    } in
    let k₂ = record k₁ {
      free_frames = returned (c.k_stack_0 ∷ []) k₁.free_frames;
      pcbs = set_pcb k₁.pcbs p (let d = k₁.pcbs p in record d { k_stack_0 = retired c.k_stack_0 });
    } in
    record k₂ {
      free_frames = returned (c.k_stack_1 ∷ []) k₂.free_frames;
      pcbs = set_pcb k₂.pcbs p (let d = k₂.pcbs p in record d { k_stack_1 = retired c.k_stack_1 });
    }

pub free_memory_eq : (p : ℕ) (k : Kernel) → k.mallocs ≡ [] → free_memory p k ≡ done tt (freed p k)
unfolding free_memory update_pcb
free_memory_eq p k m =
    let c = k.pcbs p in
    let k₁ = record k {
      free_frames = returned c.u_page_table k.free_frames;
      pcbs = set_pcb k.pcbs p (record c { u_page_table = map retired c.u_page_table });
    } in
    let k₂ = record k₁ {
      free_frames = returned (c.k_stack_0 ∷ []) k₁.free_frames;
      pcbs = set_pcb k₁.pcbs p (let d = k₁.pcbs p in record d { k_stack_0 = retired c.k_stack_0 });
    } in
    rw (free_pages_lem c.u_page_table k m)
      (rw (free_page_lem c.k_stack_0 k₁ m) (rw (free_page_lem c.k_stack_1 k₂ m)))

-- Where `malloc` does not fail, the end of a process gives back every frame that its page tables hold,
-- as often as they hold it, and no other, and leaves it none.
pub free_memory-count :
    (f p : ℕ) (k : Kernel)
    → k.mallocs ≡ []
    → Does
        (λ _ k'.
          (count f k'.free_frames ≡ held f (entries p k) + count f k.free_frames)
          × (held f (entries p k') ≡ 0))
        (free_memory p k)
free_memory-count f p k m =
    let c = k.pcbs p in
    let self : (p == p) ≡ true = ground arith in
    rw (free_memory_eq p k m) (
      freed_count f c.k_stack_0 c.k_stack_1 c.u_page_table k.free_frames,
      rw (self) (held-retired f (c.k_stack_0 ∷ c.k_stack_1 ∷ c.u_page_table)),
    )
