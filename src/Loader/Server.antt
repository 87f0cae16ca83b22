-- ===== src/Loader/Server.antt =====
-- tools/loader/src/server.rs: the tasks of the server around its locks, on the map of the clients and
-- on the set of those that are to be dropped. An address is a number; what the serial port and the
-- connections bring is chosen by the environment. A task that holds a lock stands at a place of its own,
-- so the places tell which of the locks on the map and the set are held. The lock on the sending half of
-- the port is taken by the tasks of the clients only, which take no other while they hold it. The end of
-- the server, when one of its tasks ends or on Ctrl+C, is not a step.
use kados_ng.Base.{ℕ, List, [], ◌∷◌, ◌≡◌, refl, ap, Bool, true, false, ◌==◌, if◌then◌else◌, ◌||◌}

abbrev pub Addr : Type 0
Addr = ℕ

-- `waiting` holds the lock on the disconnected clients and waits to write the map.
pub data ReapTask : Type 0 where
  asleep waiting : ReapTask

-- `forwarding` and `scheduling` hold the map for reading; `scheduling` waits for the lock on the
-- disconnected clients. With the clients that have not had the bytes yet.
pub data SerialTask : Type 0 where
  reading : SerialTask
  forwarding : List Addr → SerialTask
  scheduling : Addr → List Addr → SerialTask

-- Between two connections, or with a new one that waits to be put into the map.
pub data AcceptTask : Type 0 where
  listening : AcceptTask
  inserting : Addr → AcceptTask

-- `client_tasks` are the clients whose task runs, and `sent` those whose bytes went to the port.
pub record Server : Type 0 where
  pub monitor_clients : List Addr
  pub disconnected_clients : List Addr
  pub client_tasks : List Addr
  pub sent : List Addr
  pub accepting : AcceptTask
  pub reap : ReapTask
  pub serial : SerialTask

unfoldable pub member : Addr → List Addr → Bool
member a [] = false
member a (b ∷ bs) = a == b || member a bs

-- `insert` on a map or a set of addresses.
unfoldable pub insert : Addr → List Addr → List Addr
insert a bs = if member a bs then bs else a ∷ bs

unfoldable pub without : List Addr → List Addr → List Addr
without gone [] = []
without gone (a ∷ rest) = if member a gone then without gone rest else a ∷ without gone rest

-- Those of the addresses that are in the map.
unfoldable pub found_in : List Addr → List Addr → List Addr
found_in clients [] = []
found_in clients (a ∷ rest) =
    if member a clients then a ∷ found_in clients rest else found_in clients rest

-- The loop over the disconnected clients, with both locks; then both are given back. The tasks of
-- the clients that are found in the map are aborted.
unfoldable pub reap_disconnected : Server → Server
reap_disconnected s = record s {
  monitor_clients = without s.disconnected_clients s.monitor_clients;
  disconnected_clients = [];
  client_tasks = without (found_in s.monitor_clients s.disconnected_clients) s.client_tasks;
  reap = asleep;
}

unfoldable pub schedule_disconnect : Addr → Server → Server
schedule_disconnect a s = record s { disconnected_clients = insert a s.disconnected_clients }

abbrev pub at_serial : SerialTask → Server → Server
at_serial place s = record s { serial = place }

-- What one task does next. `free` is the premise that a lock can be taken.
pub data Step (s : Server) : Server → Type 0 where
  wake : (free : s.reap ≡ asleep) → Step s (record s { reap = waiting })
  reap_all : s.reap ≡ waiting → (free : s.serial ≡ reading) → Step s (reap_disconnected s)
  receive : s.serial ≡ reading → Step s (at_serial (forwarding s.monitor_clients) s)
  forward :
      (a : Addr) (rest : List Addr)
      → s.serial ≡ forwarding (a ∷ rest)
      → Step s (at_serial (forwarding rest) s)
  forward_fails :
      (a : Addr) (rest : List Addr)
      → s.serial ≡ forwarding (a ∷ rest)
      → Step s (at_serial (scheduling a rest) s)
  schedule :
      (a : Addr) (rest : List Addr)
      → s.serial ≡ scheduling a rest
      → (free : s.reap ≡ asleep) → Step s (at_serial (forwarding rest) (schedule_disconnect a s))
  forwarded : s.serial ≡ forwarding [] → Step s (at_serial reading s)
  accept :
      (a : Addr)
      → s.accepting ≡ listening
      → Step s (record s { accepting = inserting a; client_tasks = insert a s.client_tasks })
  insert_client :
      (a : Addr)
      → s.accepting ≡ inserting a
      → (free : s.serial ≡ reading)
      → Step s (record s { monitor_clients = insert a s.monitor_clients; accepting = listening })
  client_sends :
      (a : Addr) → member a s.client_tasks ≡ true → Step s (record s { sent = a ∷ s.sent })
  client_fails :
      (a : Addr)
      → member a s.client_tasks ≡ true
      → Step s (record s { client_tasks = without (a ∷ []) s.client_tasks })
  hang_up :
      (a : Addr)
      → member a s.client_tasks ≡ true
      → (free : s.reap ≡ asleep)
      → Step s (schedule_disconnect a (record s { client_tasks = without (a ∷ []) s.client_tasks }))

pub data Reach (s : Server) : Server → Type 0 where
  here : Reach s s
  next : {t u : Server} → Reach s t → Step t u → Reach s u

-- The task that drops clients waits for the map, which the serial task holds for reading while it
-- waits for the set, which the other holds; and this is so for ever, whatever steps are taken.
abbrev pub IsDeadlocked : Server → Type 0
IsDeadlocked s =
    (u : Server)
    → Reach s u
    → (a : Addr) × (rest : List Addr) × (u.reap ≡ waiting)
      × (u.serial ≡ scheduling a rest)
      × (u.monitor_clients ≡ s.monitor_clients)
      × (u.disconnected_clients ≡ s.disconnected_clients)

-- The two tasks stand where each waits for the lock of the other.
abbrev Circle : Addr → List Addr → Server → Server → Type 0
Circle a rest s u =
    (u.reap ≡ waiting)
    × (u.serial ≡ scheduling a rest)
    × (u.monitor_clients ≡ s.monitor_clients)
    × (u.disconnected_clients ≡ s.disconnected_clients)

Step-Circle :
    (a : Addr) (rest : List Addr) (s t u : Server)
    → Circle a rest s t
    → Step t u
    → Circle a rest s u
Step-Circle a rest s t u (r, p, m, d) (wake free) = cc
Step-Circle a rest s t u (r, p, m, d) (reap_all h free) = cc
Step-Circle a rest s t u (r, p, m, d) (receive h) = cc
Step-Circle a rest s t u (r, p, m, d) (forward b bs h) = cc
Step-Circle a rest s t u (r, p, m, d) (forward_fails b bs h) = cc
Step-Circle a rest s t u (r, p, m, d) (schedule b bs h free) = cc
Step-Circle a rest s t u (r, p, m, d) (forwarded h) = cc
Step-Circle a rest s t u (r, p, m, d) (accept b h) = (r, p, m, d)
Step-Circle a rest s t u (r, p, m, d) (insert_client b h free) = cc
Step-Circle a rest s t u (r, p, m, d) (client_sends b h) = (r, p, m, d)
Step-Circle a rest s t u (r, p, m, d) (client_fails b h) = (r, p, m, d)
Step-Circle a rest s t u (r, p, m, d) (hang_up b h free) = cc

Reach-Circle :
    (a : Addr) (rest : List Addr) (s t u : Server)
    → Circle a rest s t
    → Reach t u
    → Circle a rest s u
Reach-Circle a rest s t u c here = c
Reach-Circle a rest s t u c (next {t = v} run st) =
    Step-Circle a rest s v u (Reach-Circle a rest s t v c run) st

-- From every state of the server with a client, in which the task that drops clients sleeps and the
-- task that forwards the serial port's bytes reads, some run leads, with the same clients, to a
-- state from which, whatever steps the tasks take, these two never move again, one of them holding
-- the map of the clients and waiting for the lock on the disconnected ones, which the other holds
-- while it waits for the map. No client is then added to the map or dropped any more.
pub reaches_deadlock :
    (s : Server) (a : Addr) (rest : List Addr)
    → s.reap ≡ asleep
    → s.serial ≡ reading
    → s.monitor_clients ≡ a ∷ rest
    → (t : Server) × Reach s t × IsDeadlocked t × (t.monitor_clients ≡ s.monitor_clients)
reaches_deadlock s a rest r p c =
    let s1 = at_serial (forwarding s.monitor_clients) s in
    let s2 = at_serial (scheduling a rest) s1 in
    let s3 : Server = record s2 { reap = waiting } in
    (
      s3,
      next (next (next here (receive p)) (forward_fails a rest (ap forwarding c))) (wake r),
      λ u run.
          let (waits, schedules, clients, set) =
            Reach-Circle a rest s3 s3 u (refl, refl, refl, refl) run in
          (a, rest, waits, schedules, clients, set),
      refl,
    )
