-- ===== src/Pipe/Buffer.antt =====
-- The buffer of a pipe as a sequence of bytes: PipeInfo, and the copies that sys_PipeRead and
-- sys_PipeWrite make.
use mathlib.Core.Option
use sc0x3a.Base.{
  ℕ, zero, suc, ◌+◌, ◌-◌, min, ◌≤◌, ◌<◌, ◌≡◌, refl, ap, sym, ◌∙◌, true, some, List, [], ◌∷◌, ◌++◌,
  arith, length, leb, get_elem?,
}
use sc0x3a.Kernel.{PipeInfo}
use sc0x3a.Pipe.{bytes, splice, take_bytes, add_bytes, writable}

-- What is written to the pipe and not yet read.
abbrev pub contents : PipeInfo → List ℕ
contents p = bytes p.pipe_buffer 0 p.cur_len

pub bytes_ext :
    (f g : ℕ → ℕ) (i j n : ℕ)
    → ((d x y : ℕ) → d < n → x ≡ i + d → y ≡ j + d → f x ≡ g y)
    → bytes f i n ≡ bytes g j n
unfolding bytes
bytes_ext f g i j zero h = refl
bytes_ext f g i j (suc n) h =
    let head : f i ≡ g j = h 0 i j (omega arith) (omega arith) (omega arith) in
    let tail : bytes f (i + 1) n ≡ bytes g (j + 1) n =
      bytes_ext f g (i + 1) (j + 1) n
        λ d x y l e e'. h (suc d) x y (omega arith) (omega arith) (omega arith) in
    rw (head, tail)

pub bytes-append :
    (f : ℕ → ℕ) (i j m n : ℕ) → j ≡ i + m → bytes f i (m + n) ≡ bytes f i m ++ bytes f j n
unfolding bytes
bytes-append f i j zero n e =
    let same : j ≡ i = omega arith in
    let none_more : 0 + n ≡ n = omega arith in rw (same, none_more)
bytes-append f i j (suc m) n e =
    let more : suc m + n ≡ suc (m + n) = omega arith in
    rw (more) (ap (λ xs. f i ∷ xs) (bytes-append f (i + 1) j m n (omega arith)))

bytes-get :
    (bs : List ℕ) (f : ℕ → ℕ) (i : ℕ)
    → ((d x : ℕ) → d < length bs → x ≡ i + d → get_elem? bs d ≡ some (f x))
    → bytes f i (length bs) ≡ bs
unfolding bytes
bytes-get [] f i h = refl
bytes-get (b ∷ bs) f i h =
    let head : some b ≡ some (f i) = h 0 i (omega arith) (omega arith) in
    let tail : bytes f (i + 1) (length bs) ≡ bs =
      bytes-get bs f (i + 1) λ d x l e. h (suc d) x (omega arith) (omega arith) in
    cc

get_elem?-some :
    (bs : List ℕ) (d z : ℕ)
    → d < length bs
    → get_elem? bs d ≡ some (Option.get_or (get_elem? bs d) z)
get_elem?-some [] d z h = absurd (omega arith)
get_elem?-some (b ∷ bs) zero z h = refl
get_elem?-some (b ∷ bs) (suc d) z h = get_elem?-some bs d z (omega arith)

splice_below : (f : ℕ → ℕ) (off i : ℕ) (bs : List ℕ) → i < off → splice f off bs i ≡ f i
unfolding splice
splice_below f off i bs h = ground arith

splice_above :
    (f : ℕ → ℕ) (off d x : ℕ) (bs : List ℕ)
    → x ≡ off + d
    → splice f off bs x ≡ Option.get_or (get_elem? bs d) (f x)
unfolding splice
splice_above f off d x bs e =
    let back : x - off ≡ d = omega arith in
    let up : leb off x ≡ true = ground arith in rw (up, back)

pub add_bytes-contents : (bs : List ℕ) (p : PipeInfo) → contents (add_bytes bs p) ≡ contents p ++ bs
unfolding add_bytes
add_bytes-contents bs p =
    let spliced = splice p.pipe_buffer p.cur_len bs in
    let old : bytes spliced 0 p.cur_len ≡ contents p =
      bytes_ext spliced p.pipe_buffer 0 0 p.cur_len λ d x y l e e'.
        let same : x ≡ y = omega arith in
        splice_below p.pipe_buffer p.cur_len x bs (omega arith) ∙ ap p.pipe_buffer same in
    let new : bytes spliced p.cur_len (length bs) ≡ bs = bytes-get bs spliced p.cur_len λ d x l e.
      get_elem?-some bs d (p.pipe_buffer x) l
      ∙ ap some (sym (splice_above p.pipe_buffer p.cur_len d x bs e)) in
    rw (bytes-append spliced 0 p.cur_len p.cur_len (length bs) (omega arith), old, new)

pub take_bytes-contents :
    (len : ℕ) (p : PipeInfo)
    → len ≤ p.cur_len
    → contents p ≡ bytes p.pipe_buffer 0 len ++ contents (take_bytes len p)
unfolding take_bytes
take_bytes-contents len p h =
    let split : p.cur_len ≡ len + (p.cur_len - len) = omega arith in
    let rest : bytes p.pipe_buffer len (p.cur_len - len) ≡ contents (take_bytes len p) =
      bytes_ext p.pipe_buffer (λ i. p.pipe_buffer (i + len)) len 0 (p.cur_len - len)
        λ d x y l e e'. let same : x ≡ y + len = omega arith in ap p.pipe_buffer same in
    ap (bytes p.pipe_buffer 0) split
    ∙ bytes-append p.pipe_buffer 0 len len (p.cur_len - len) (omega arith)
    ∙ ap (λ xs. bytes p.pipe_buffer 0 len ++ xs) rest

pub length-bytes : (f : ℕ → ℕ) (i n : ℕ) → length (bytes f i n) ≡ n
unfolding bytes
length-bytes f i zero = refl
length-bytes f i (suc n) = ap suc (length-bytes f (i + 1) n)

-- A write fits.
pub writable-fits : (p : PipeInfo) (len : ℕ) → p.cur_len ≤ 4096 → p.cur_len + writable p len ≤ 4096
writable-fits p len h = ground arith

-- What a write takes is what is asked for, but no more than there is room for.
pub writable-min : (p : PipeInfo) (len : ℕ) → writable p len ≡ min len (4096 - p.cur_len)
writable-min p len = ground arith
