-- ===== src/Program/Pages.antt =====
-- The address space that load_program gives to a process.
use sc0x3a.Base.{
  eqb_ℤ, error, not, if◌then◌else◌, ℕ, ◌+◌, ◌≤◌, ◌≡◌, ◌≢◌, refl, ap, ◌∙◌, true, false, List, [],
  ◌==◌, arith, length, map, take, drop, length-drop, All, All-take, All-drop, ℤ, pos, ◌+ℤ◌, ◌-ℤ◌,
}
use sc0x3a.Kernel.{Kernel, Pcb, Pte}
use sc0x3a.Kernel.Monad.{M, Does, Does-bind, Does-mono, pure, ◌>>=◌, ◌>>◌, set_pcb}
use sc0x3a.Scheduler.{update_pcb}
use sc0x3a.Process.{brk_loop}
use sc0x3a.Process.Brk.{map_pages, Grown, brk_loop_lem}
use sc0x3a.Process.Freed.{retired, returned, free_pages_lem}
use sc0x3a.Program.{LoadInfo, new_pages, stack_pages, first_page, data_npg, stack_npg}
use sc0x3a.Program.Stack.{map_down, GrownDown, stack_pages_lem}

-- The free frames once those of the process have been given back.
abbrev pub supply : ℕ → Kernel → List ℕ
supply p k = returned (k.pcbs p).u_page_table k.free_frames

-- The page table with `t` frames at the pages from `tp` on, the next `d` at those from `dp` on and the
-- next `s` at those below the top.
abbrev pub image : ℕ → ℕ → ℕ → ℕ → ℕ → List ℕ → List Pte → List Pte
image tp t dp d s fs table =
    map_down 128 (take s (drop d (drop t fs)))
      (map_pages dp (take d (drop t fs)) (map_pages tp (take t fs) (map retired table)))

abbrev pub Loaded : ℕ → ℕ → ℕ → ℕ → ℕ → ℕ → Kernel → ℤ → Kernel → Type 0
Loaded p tp t dp d s k rc k' =
    (rc ≡ pos 0)
    × (k'.free_frames ≡ drop s (drop d (drop t (supply p k))))
    × (k'.pcbs p ≡ (
        let c = k.pcbs p in
        record c {
          u_page_table = image tp t dp d s (supply p k) c.u_page_table;
          next_heap_pn = pos dp +ℤ pos d;
          next_stack_pn = pos 127 -ℤ pos s;
        }))
    × ((q : ℕ) → (q == p) ≡ false → k'.pcbs q ≡ k.pcbs q)

-- What the loop over the pages of the stack and the statements behind it do to `k`.
abbrev Stacked : ℕ → ℕ → Kernel → ℤ → Kernel → Type 0
Stacked p s k rc k' =
    (rc ≡ pos 0)
    × (k'.free_frames ≡ drop s k.free_frames)
    × (k'.pcbs p ≡ (
        let c = k.pcbs p in
        record c {
          u_page_table = map_down 128 (take s k.free_frames) c.u_page_table;
          next_stack_pn = pos 127 -ℤ pos s;
        }))
    × ((q : ℕ) → (q == p) ≡ false → k'.pcbs q ≡ k.pcbs q)

-- The statements of new_pages from the loop over the pages of the stack on.
abbrev stack_stage : ℕ → ℕ → M ℤ
stack_stage p s = do
  rc ← stack_pages p s (pos 127)
  if not (eqb_ℤ rc (pos 0))
      then pure error
      else do update_pcb p (λ c. record c { next_stack_pn = pos 127 -ℤ pos s }); pure (pos 0)

stack_stage_lem :
    (p s : ℕ) (k : Kernel)
    → s ≤ 128
    → s ≤ length k.free_frames
    → All (λ f. f ≢ 0) (take s k.free_frames)
    → Does (Stacked p s k) (stack_stage p s k)
unfolding update_pcb
stack_stage_lem p s k inside enough live =
    let self : (p == p) ≡ true = ground arith in
    Does-bind (GrownDown p s 128 k) (Stacked p s k) (stack_pages p s (pos 127) k) _
      (stack_pages_lem s p 128 k enough live inside (omega arith))
      λ rc k' (z, frames, table, others). rw (z) (
        refl,
        frames,
        rw (self) (ap {A = Pcb} (λ c. record c { next_stack_pn = pos 127 -ℤ pos s }) table),
        λ q other. rw (other) (others q other),
      )

module _ (p tp dp : ℕ) (li : LoadInfo) (args : List (List ℕ)) (k : Kernel) (m : k.mallocs ≡ [])
    (text : first_page li.t_vaddr ≡ pos tp) (rest : first_page li.id_vaddr ≡ pos dp)
    (text_in : tp + li.t_npg ≤ 128) (rest_in : dp + data_npg li ≤ 128)
    (stack_in : stack_npg args ≤ 128)
    (enough : li.t_npg + data_npg li + stack_npg args ≤ length (supply p k))
    (live : All (λ f. f ≢ 0) (supply p k)) where
  -- Where `malloc` does not fail, the text, the other pages and the stack lie inside region 1, and with the
  -- frames of the process there are as many free ones as they need, all of them numbers of frames, the
  -- allocation of load_program returns 0; the process then has the first free frames, in this order, at
  -- the pages of the text, at the other pages, and at those of the stack from the top down, and no page of
  -- before but under these; the frames behind them are free, and no other process is changed.
  pub new_pages_lem :
      Does (Loaded p tp li.t_npg dp (data_npg li) (stack_npg args) k) (new_pages p li args k)
  unfolding new_pages update_pcb
  new_pages_lem =
      let es = (k.pcbs p).u_page_table in
      let t = li.t_npg in
      let d = data_npg li in
      let s = stack_npg args in
      let fs = supply p k in
      let Live : ℕ → Type 0 = λ f. f ≢ 0 in
      let live₂ = All-drop Live t fs live in
      let live₃ = All-drop Live d (drop t fs) live₂ in
      let n₂ = length-drop t fs in
      let n₃ = length-drop d (drop t fs) in
      let self : (p == p) ≡ true = ground arith in
      let k₁ = record k {
        free_frames = fs;
        pcbs = set_pcb k.pcbs p (let c = k.pcbs p in record c { u_page_table = map retired es });
      } in
      rw (free_pages_lem es k m) (
        rw (text, rest)
          (Does-bind (Grown p t tp k₁) (Loaded p tp t dp d s k) (brk_loop p t (pos tp) k₁) _
            (brk_loop_lem t p tp k₁ (omega (arith, enough)) (All-take Live t fs live) text_in)
            λ rc k₂ (z₂, frames₂, table₂, others₂). rw (z₂) (
              let c₂ : k₂.pcbs p ≡ (
                  let c = k.pcbs p in
                  record c { u_page_table = map_pages tp (take t fs) (map retired es) }) =
                rw (self) at table₂ in
              Does-bind (Grown p d dp k₂) (Loaded p tp t dp d s k) (brk_loop p d (pos dp) k₂) _
                (brk_loop_lem d p dp k₂ (rw (frames₂) (omega (arith, enough, n₂)))
                  (rw (frames₂) (All-take Live d (drop t fs) live₂)) rest_in)
                λ rc k₃ (z₃, frames₃, table₃, others₃). rw (z₃) (
                  let k₄ = record k₃ {
                    pcbs =
                        set_pcb k₃.pcbs p
                          (let c = k₃.pcbs p in record c { next_heap_pn = pos dp +ℤ pos d });
                  } in
                  let left₃ : k₃.free_frames ≡ drop d (drop t fs) = rw (frames₂) at frames₃ in
                  let c₃ = rw (frames₂, c₂) at table₃ in
                  Does-mono (Stacked p s k₄) (Loaded p tp t dp d s k) (stack_stage p s k₄)
                    (stack_stage_lem p s k₄ stack_in (rw (left₃) (omega (arith, enough, n₂, n₃)))
                      (rw (left₃) (All-take Live s (drop d (drop t fs)) live₃)))
                    λ rc k₅ (z₅, frames₅, table₅, others₅). (
                      z₅,
                      rw (left₃) at frames₅,
                      rw (self, left₃, c₃) at table₅,
                      λ q other.
                          others₅ q other
                          ∙ rw (other) (others₃ q other ∙ others₂ q other ∙ rw (other)),
                    )))))
