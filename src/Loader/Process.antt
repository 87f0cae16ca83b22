-- ===== src/Loader/Process.antt =====
-- A program that reads and writes a byte stream as a tree of its actions, and two such programs that
-- are connected by a line in each direction. A line keeps the bytes in order and loses none; each
-- program blocks until the bytes that it reads have come.
use kados_ng.Base.{ℕ, suc, List, [], ◌++◌, Option, none, some, length, take, drop, leb}
use kados_ng.Base.{if◌then◌else◌, ◌==◌, ◌≡◌}

-- How a program ends: by a jump to an address, by returning, or by a panic. `out_of_fuel` is no end
-- of the program: the fuel of a loop that waits for input has run out.
pub data End : Type 0 where
  jump : ℕ → End
  ok err panic out_of_fuel : End

-- `receive n` reads exactly `n` bytes, `store` is a volatile write of a byte, `read32` and `write32`
-- are volatile accesses to a device register.
pub data Process : Type 0 where
  send : List ℕ → Process → Process
  receive : ℕ → (List ℕ → Process) → Process
  store : ℕ → ℕ → Process → Process
  read32 : ℕ → (ℕ → Process) → Process
  write32 : ℕ → ℕ → Process → Process
  halt : End → Process

pub record Party : Type 0 where
  pub process : Process
  pub inbox : List ℕ
  pub memory : ℕ → ℕ
  pub registers : ℕ → ℕ

abbrev pub update : (ℕ → ℕ) → ℕ → ℕ → ℕ → ℕ
update f a v b = if a == b then v else f b

-- One action of a party, and the bytes that it sends; `none` where it has halted or has to wait.
unfoldable pub act : Process → Party → Option (Party × List ℕ)
act (send bs k) p = some (record p { process = k }, bs)
act (receive n k) p =
    if leb n (length p.inbox)
    then some (record p { process = k (take n p.inbox); inbox = drop n p.inbox }, [])
    else none
act (store a v k) p = some (record p { process = k; memory = update p.memory a v }, [])
act (read32 a k) p = some (record p { process = k (p.registers a) }, [])
act (write32 a v k) p = some (record p { process = k; registers = update p.registers a v }, [])
act (halt e) p = none

unfoldable pub step : Party → Option (Party × List ℕ)
step p = act p.process p

unfoldable pub deliver : List ℕ → Party → Party
deliver bs p = record p { inbox = p.inbox ++ bs }

pub record System : Type 0 where
  pub device : Party
  pub client : Party

pub data Side : Type 0 where
  device_side client_side : Side

abbrev pub after_device : Party → Option (Party × List ℕ) → Option System
after_device c none = none
after_device c (some (d, bs)) = some (record { device = d; client = deliver bs c })

abbrev pub after_client : Party → Option (Party × List ℕ) → Option System
after_client d none = none
after_client d (some (c, bs)) = some (record { device = deliver bs d; client = c })

unfoldable pub advance : Side → System → Option System
advance device_side s = after_device s.client (step s.device)
advance client_side s = after_client s.device (step s.client)

-- Either party may act next.
pub data Step (s t : System) : Type 0 where
  by : (side : Side) → advance side s ≡ some t → Step s t

pub data Steps : ℕ → System → System → Type 0 where
  here : {s : System} → Steps 0 s s
  next : {n : ℕ} {s t u : System} → Step s t → Steps n t u → Steps (suc n) s u

-- No party can act.
pub record IsFinal (s : System) : Type 0 where
  pub device_stuck : advance device_side s ≡ none
  pub client_stuck : advance client_side s ≡ none
