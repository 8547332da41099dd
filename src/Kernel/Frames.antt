-- ===== src/Kernel/Frames.antt =====
-- mem.c: frames are taken from the front of `free_frames`; 0 stands for none.
use sc0x3a.Base.{ℕ, if◌then◌else◌, List, [], ◌∷◌, ◌≡◌, arith}
use sc0x3a.Kernel.{Kernel}
use sc0x3a.Kernel.Monad.{M, done, ◌>>=◌, get, put, malloc}

unfoldable pub grab_a_frame : M ℕ
grab_a_frame k = elim k.free_frames [
  | [] ↦ done 0 k
  | f ∷ fs ↦ done f (record k { free_frames = fs })
]

-- `list_insert(&free_frames, 1, pfn)`, whose result is not looked at
unfoldable pub free_frame : ℕ → M (Unit {0})
unfolding malloc
free_frame pfn = do
  b ← malloc
  k ← get
  put (if b then record k { free_frames = pfn ∷ k.free_frames } else k)

pub grab_a_frame_lem :
    (f : ℕ) (fs : List ℕ) (k : Kernel)
    → k.free_frames ≡ f ∷ fs
    → grab_a_frame k ≡ done f (record k { free_frames = fs })
unfolding grab_a_frame
grab_a_frame_lem f fs k e = ground arith

pub grab_a_frame-none : (k : Kernel) → k.free_frames ≡ [] → grab_a_frame k ≡ done 0 k
unfolding grab_a_frame
grab_a_frame-none k e = ground arith
