-- ===== src/Scheduler/Unblock.antt =====
-- How many waiters the loop of the three destroy functions makes ready.
use mathlib.Core.List.{append_assoc, append-nil}
use sc0x3a.Base.{
  ℕ, zero, suc, ◌+◌, ◌-◌, ◌/◌, ◌≡◌, true, false, List, [], ◌∷◌, ◌++◌, leb, arith, length, take,
  drop,
}
use sc0x3a.Kernel.{Kernel}
use sc0x3a.Kernel.Monad.{done, put_ready_lem}
use sc0x3a.Scheduler.{unblock}

unblock_from :
    (j : ℕ) (ws : List ℕ) (n : ℕ) (k : Kernel)
    → k.mallocs ≡ []
    → n ≡ (length ws + 2 - j) / 2
    → unblock j ws k ≡ done (drop n ws) (record k { ready_queue = k.ready_queue ++ take n ws })
unfolding unblock
unblock_from j [] zero k m e = rw append-nil
unblock_from j [] (suc n) k m e = rw append-nil
unblock_from j (p ∷ ps) zero k m e =
    let stop : leb j (length (p ∷ ps)) ≡ false = ground arith in rw (stop, append-nil)
unblock_from j (p ∷ ps) (suc n) k m e =
    let go_on : leb j (length (p ∷ ps)) ≡ true = ground arith in
    rw (go_on, put_ready_lem p k m)
      (rw (
        unblock_from (j + 1) ps n (record k { ready_queue = k.ready_queue ++ p ∷ [] }) m
            (omega arith),
        append_assoc,
      ))

-- Where `malloc` does not fail, of `n` waiters the loop makes the first `(n + 1) / 2` ready, in their order, and leaves the others:
-- its bound shrinks as its counter grows.
pub unblock-half :
    (ws : List ℕ) (k : Kernel)
    → k.mallocs ≡ []
    → let half = (length ws + 1) / 2 in
      unblock 1 ws k
      ≡ done (drop half ws) (record k { ready_queue = k.ready_queue ++ take half ws })
unblock-half ws k m = unblock_from 1 ws ((length ws + 1) / 2) k m (omega arith)
