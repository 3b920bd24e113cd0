-- ===== src/Kernel/Run.antt =====
-- What a process does inside the kernel. It ends with a result, or it is switched out: `parked k
-- rest` leaves the kernel in state `k`, and `rest` is what the process does from the state in which
-- it is resumed, whatever other processes and interrupts made of `k` in between.
use g21_tp2_so_1c.Base.{◌≡◌, refl, Bool, true, false}
use g21_tp2_so_1c.Kernel.State.{Kernel}

pub data Run (A : Type 0) : Type 0 where
  done : A → Kernel → Run A
  parked : Kernel → (Kernel → Run A) → Run A

abbrev pub M : Type 0 → Type 0
M A = Kernel → Run A

abbrev pub bind_run : {A B : Type 0} → Run A → (A → M B) → Run B
bind_run (done a k) f = f a k
bind_run (parked k rest) f = parked k (λ k'. bind_run (rest k') f)

infixl 5 ◌>>=◌ ◌>>◌
abbrev pub ◌>>=◌ : {A B : Type 0} → M A → (A → M B) → M B
◌>>=◌ m f k = bind_run (m k) f

abbrev pub ◌>>◌ : {B : Type 0} → M (Unit {0}) → M B → M B
m >> n = m >>= λ _. n

abbrev pub pure : {A : Type 0} → A → M A
pure a k = done a k

abbrev pub read : {A : Type 0} → (Kernel → A) → M A
read f k = done (f k) k

abbrev pub write : (Kernel → Kernel) → M (Unit {0})
write f k = done tt (f k)

-- A step that returns a result with the new state.
abbrev pub step : {A : Type 0} → (Kernel → A × Kernel) → M A
step f k = let (a, k') = f k in done a k'

-- The process is switched out in state `f k`.
abbrev pub park : (Kernel → Kernel) → M (Unit {0})
park f k = parked (f k) (λ k'. done tt k')

-- The property holds whenever the process stands still: at its end, and wherever it is switched
-- out, if the others keep it too.
abbrev pub RunKeeps : {A : Type 0} → (Kernel → Type 0) → Run A → Type 0
RunKeeps P (done a k) = P k
RunKeeps P (parked k rest) = P k × ((k' : Kernel) → P k' → RunKeeps P (rest k'))

abbrev pub Keeps : {A : Type 0} → (Kernel → Type 0) → M A → Type 0
Keeps P m = (k : Kernel) → P k → RunKeeps P (m k)

pub RunKeeps-bind :
    {A B : Type 0} (P : Kernel → Type 0) (r : Run A) (f : A → M B)
    → RunKeeps P r
    → ((a : A) → Keeps P (f a))
    → RunKeeps P (bind_run r f)
RunKeeps-bind P (done a k) f h g = g a k h
RunKeeps-bind P (parked k rest) f h g = (h.0, λ k' p. RunKeeps-bind P (rest k') f (h.1 k' p) g)

pub Keeps-cases :
    {A : Type 0} (P : Kernel → Type 0) (b : Bool) (m n : M A)
    → (b ≡ true → Keeps P m)
    → (b ≡ false → Keeps P n)
    → Keeps P (elim b [ true ↦ m | false ↦ n ])
Keeps-cases P true m n h g = h refl
Keeps-cases P false m n h g = g refl
