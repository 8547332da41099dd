-- ===== src/Terminal/Spin.antt =====
-- When the loop of trap_tty_receive_hdl ends.
use mathlib.Core.Path.{subst, sym}
use sc0x3a.Base.{ℕ, zero, suc, ◌≡◌, refl, true, false, List, [], ◌∷◌, ◌++◌, ℤ}
use sc0x3a.Kernel.{Kernel}
use sc0x3a.Kernel.Monad.{done, out_of_fuel, put_ready_lem}
use sc0x3a.Terminal.{receive_loop, reads_from}

spins_at :
    (fuel : ℕ) (tty_id : ℤ) (p : ℕ) (ps : List ℕ) (k : Kernel)
    → reads_from k tty_id p ≡ false
    → receive_loop fuel tty_id (record k { io_list = p ∷ ps }) ≡ out_of_fuel
unfolding receive_loop
spins_at zero tty_id p ps k other = refl
spins_at (suc fuel) tty_id p ps k other = rw (other) (spins_at fuel tty_id p ps k other)

wakes_at :
    (fuel : ℕ) (tty_id : ℤ) (p : ℕ) (ps : List ℕ) (k : Kernel)
    → k.mallocs ≡ []
    → reads_from k tty_id p ≡ true
    → receive_loop (suc fuel) tty_id (record k { io_list = p ∷ ps })
      ≡ done tt (record k { io_list = ps; ready_queue = k.ready_queue ++ p ∷ [] })
unfolding receive_loop
wakes_at fuel tty_id p ps k m reader =
    rw (reader) (rw (put_ready_lem p (record k { io_list = ps }) m))

-- Where the first process that waits for a terminal is not a reader of the one that delivers a line,
-- no number of rounds ends the loop.
pub receive_loop-spins :
    (fuel : ℕ) (tty_id : ℤ) (p : ℕ) (ps : List ℕ) (k : Kernel)
    → k.io_list ≡ p ∷ ps
    → reads_from k tty_id p ≡ false
    → receive_loop fuel tty_id k ≡ out_of_fuel
receive_loop-spins fuel tty_id p ps k e other =
    subst (λ l. receive_loop fuel tty_id (record k { io_list = l }) ≡ out_of_fuel) (sym e)
      (spins_at fuel tty_id p ps k other)

-- Where `malloc` does not fail and that first process is a reader, one round makes it ready.
pub receive_loop-wakes :
    (fuel : ℕ) (tty_id : ℤ) (p : ℕ) (ps : List ℕ) (k : Kernel)
    → k.mallocs ≡ []
    → k.io_list ≡ p ∷ ps
    → reads_from k tty_id p ≡ true
    → receive_loop (suc fuel) tty_id k
      ≡ done tt (record k { io_list = ps; ready_queue = k.ready_queue ++ p ∷ [] })
receive_loop-wakes fuel tty_id p ps k m e reader =
    subst
      (λ l.
        receive_loop (suc fuel) tty_id (record k { io_list = l })
        ≡ done tt (record k { io_list = ps; ready_queue = k.ready_queue ++ p ∷ [] }))
      (sym e) (wakes_at fuel tty_id p ps k m reader)
