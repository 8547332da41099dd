-- ===== src/Reclaim.antt =====
-- sys_Reclaim of syscall.c: a pipe, lock or cvar is destroyed by its id.
use sc0x3a.Base.{
  Bool, not, none, some, if◌then◌else◌, find, remove_first, ℤ, pos, eqb_ℤ, ltb_ℤ, to_int, error,
}
use sc0x3a.Kernel.{ReclaimInfo, Kind, pipe, lock, cvar}
use sc0x3a.Kernel.Monad.{M, pure, ◌>>=◌, ◌>>◌, get, put}
use sc0x3a.Pipe.{destroy_pipe_info}
use sc0x3a.Lock.{destroy_lock_info}
use sc0x3a.Cvar.{destroy_cvar_info}

abbrev pub has_id : ℤ → ReclaimInfo → Bool
has_id id r = eqb_ℤ (pos r.id) id

unfoldable pub destroy : Kind → ℤ → M ℤ
unfolding destroy_pipe_info destroy_lock_info destroy_cvar_info
destroy pipe id = destroy_pipe_info id
destroy lock id = destroy_lock_info id
destroy cvar id = destroy_cvar_info id

unfoldable pub sys_Reclaim : M ℤ
unfolding destroy
sys_Reclaim = do
  k ← get
  let id = to_int k.uctxt.reg0
  if ltb_ℤ id (pos 0) then pure error else elim (find (has_id id) k.reclaim_list) [
    | none ↦ pure error
    | some r ↦ do
      rc ← destroy r.kind id
      if not (eqb_ℤ rc (pos 0)) then pure error else do
        k ← get
        put (record k { reclaim_list = remove_first (has_id id) k.reclaim_list })
        pure (pos 0)
  ]
