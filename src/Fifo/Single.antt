-- ===== src/Fifo/Single.antt =====
-- The queue invariant of `fifo_t`, and the operations on single bytes.
use ct_bot.Base.{
  ℕ, zero, suc, ◌+◌, ◌-◌, ◌≤◌, ◌<◌, ◌≡◌, ◌≢◌, refl, Bool, List, [], ◌∷◌, ◌++◌, arith, length, ap,
  length-set, get_or, wrap, window, window-set_end, ◌==◌, if◌then◌else◌,
}
use ct_bot.Fifo.{Fifo, done, init, put, get}

pub record IsValid (f : Fifo) : Type 0 where
  pub nonempty : 0 < f.size
  pub small : f.size < 256
  pub storage : f.size ≤ length f.buffer
  pub read_in : f.pread < f.size
  pub write_in : f.pwrite < f.size
  pub count_in : f.count ≤ f.size
  pub distance : f.pwrite ≡ wrap f.size (f.pread + f.count)
  pub read_end : f.read2end + f.pread ≡ f.size
  pub write_end : f.write2end + f.pwrite ≡ f.size

-- The bytes that wait in the queue, oldest first.
abbrev pub contents : Fifo → List ℕ
contents f = window 0 f.buffer f.size f.pread f.count

-- A queue over a storage of at least `size` bytes starts valid and empty.
pub init-IsValid :
    (buffer : List ℕ) (size : ℕ)
    → 0 < size
    → size < 256
    → size ≤ length buffer
    → IsValid (init buffer size) × (contents (init buffer size) ≡ [])
unfolding init
init-IsValid buffer size h k l = (ground arith, refl)

pub put-IsValid : {f : Fifo} (x : ℕ) → IsValid f → IsValid (put f x)
unfolding put
put-IsValid {f} x v = ground (arith, length-set f.buffer f.pwrite x)

-- In a valid queue a byte goes to the end of the contents. Into a full queue it does not, which
-- `overflow` records.
pub contents-put :
    {f : Fifo} (x : ℕ)
    → IsValid f
    → (contents (put f x) ≡ (if f.count == f.size then contents f else contents f ++ (x ∷ [])))
      × ((put f x).overflow ≡ (if f.count == f.size then 1 else f.overflow))
unfolding put
contents-put {f} x v =
    (ground (arith, window-set_end 0 f.buffer f.size x f.count f.pread f.pwrite), ground arith)

pub get-IsValid : {f : Fifo} (isr : Bool) → IsValid f → f.count ≢ 0 → IsValid (get f isr).1
unfolding get
get-IsValid {f} isr v h = ground arith

window-pred :
    (buf : List ℕ) (size h n : ℕ)
    → n ≢ 0
    → window 0 buf size h n ≡ get_or buf h 0 ∷ window 0 buf size (wrap size (h + 1)) (n - 1)
window-pred buf size h zero ne = absurd (ne refl)
window-pred buf size h (suc n) ne =
    ap (λ k. get_or buf h 0 ∷ window 0 buf size (wrap size (h + 1)) k) (omega arith)

-- From a valid queue that is not empty the oldest byte is taken, and the others stay in their order.
pub contents-get :
    {f : Fifo} (isr : Bool)
    → IsValid f
    → f.count ≢ 0
    → (byte : ℕ) × ((get f isr).0 ≡ done byte) × (contents f ≡ byte ∷ contents (get f isr).1)
unfolding get
contents-get {f} isr v h = (
  get_or f.buffer f.pread 0,
  ground arith,
  ground (arith, window-pred f.buffer f.size f.pread f.count),
)
