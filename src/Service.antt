-- ===== src/Service.antt =====
-- ExtNet/Net/WsService.cpp, ExtNet/ws/WsConnectMgr.cpp and the destructor of WsConnect: a service and the
-- registry of its connections. TcpService and TcpConnectMgr differ in that the callback erases once and
-- there are no packets (`client_read_cb`). A connection is an object at an address; the registry maps
-- numbers to addresses. `none` is the deletion of an object that is not there.
pub mod Registry
pub mod Keep
pub mod History
pub mod Stop
pub mod Start
pub mod Tcp
pub mod TcpStart
mod Tests
use multithread_libevent_exa.Prelude.{
  ℕ, ◌+◌, ◌%◌, ◌^◌, Bool, true, false, List, [], ◌∷◌, ◌++◌, Option, none, some, ◌==◌, if◌then◌else◌,
}

-- `WsConnect` and `FdBridge`.
pub record Conn : Type 0 where
  pub conn_id : ℕ
  pub fd : ℕ

-- `accepted` and `closed` record the history of the descriptors; the program has no such variables.
pub record Service : Type 0 where
  pub connect_mgr : List (ℕ × ℕ)
  pub unique_id : ℕ
  pub objects : List (ℕ × Conn)
  pub packlist : List ℕ
  pub accepted : List ℕ
  pub closed : List ℕ

-- The constructors.
unfoldable pub new_service : Service
new_service = record {
  connect_mgr = [];
  unique_id = 0;
  objects = [];
  packlist = [];
  accepted = [];
  closed = [];
}

-- Maps as lists of entries.
unfoldable pub find : {A : Type 0} → ℕ → List (ℕ × A) → Option A
find k [] = none
find k ((j, x) ∷ m) = if k == j then some x else find k m

unfoldable pub erase : {A : Type 0} → ℕ → List (ℕ × A) → List (ℕ × A)
erase k [] = []
erase k ((j, x) ∷ m) = let rest = erase k m in if k == j then rest else (j, x) ∷ rest

-- `insert` leaves an entry that is there.
unfoldable pub insert : ℕ → ℕ → List (ℕ × ℕ) → List (ℕ × ℕ)
insert k a m = elim (find k m) [ none ↦ (k, a) ∷ m | some _ ↦ m ]

-- `Make_uniqueId`, on 32 bits.
unfoldable pub make_unique_id : Service → ℕ × Service
make_unique_id s = (s.unique_id, record s { unique_id = (s.unique_id + 1) % 2 ^ 32 })

-- `NewConnect`, on the address that `new` returns.
unfoldable pub new_connect : Service → ℕ → ℕ → Service
new_connect s addr fd =
    let (n, s') = make_unique_id s in
    record s' {
      objects = (addr, record { conn_id = n; fd = fd }) ∷ s'.objects;
      connect_mgr = insert n addr s'.connect_mgr;
    }

-- `doAccept` on what `accept` returned, with -1 as `none`, and whether the descriptor could be made
-- non-blocking. With -1 it cannot.
unfoldable pub do_accept : Service → ℕ → Option ℕ → Bool → Service
do_accept s addr none nonblocking = s
do_accept s addr (some fd) false = record s { accepted = fd ∷ s.accepted; closed = fd ∷ s.closed }
do_accept s addr (some fd) true = new_connect (record s { accepted = fd ∷ s.accepted }) addr fd

-- `deleteConnect`.
unfoldable pub delete_connect : Service → ℕ → Service
delete_connect s n = record s { connect_mgr = erase n s.connect_mgr }

-- `delete pConn`, with the destructors of WsConnect and FdBridge: the descriptor is closed.
unfoldable pub delete_object : Service → ℕ → Option Service
delete_object s addr = elim (find addr s.objects) [
  | none ↦ none
  | some c ↦ some (record s { objects = erase addr s.objects; closed = c.fd ∷ s.closed })
]

-- `client_read_cb` of TcpService, when `read` has returned, with `failed` for a negative result.
unfoldable pub client_read_cb : Service → ℕ → Bool → Option Service
client_read_cb s addr false = some s
client_read_cb s addr true = elim (find addr s.objects) [
  | none ↦ none
  | some c ↦ delete_object (delete_connect s c.conn_id) addr
]

-- `ws_client_read_cb` of WsService, which erases twice.
unfoldable pub ws_client_read_cb : Service → ℕ → Bool → Option Service
ws_client_read_cb s addr false = some s
ws_client_read_cb s addr true = elim (find addr s.objects) [
  | none ↦ none
  | some c ↦ delete_object (delete_connect (delete_connect s c.conn_id) c.conn_id) addr
]

-- A round of the loop of `OnStop` of a registry, which the thread makes that stops the service, with
-- `connect_mgr` for the entries that the loop has not come to yet.
unfoldable pub stop_round : Service → Option Service
stop_round s = of_entries s.connect_mgr
  where
    of_entries : List (ℕ × ℕ) → Option Service
    of_entries [] = some s
    of_entries ((n, addr) ∷ m) = delete_object (record s { connect_mgr = m }) addr

-- `AddPack`, and `Swap` with the caller's list.
unfoldable pub add_pack : Service → ℕ → Service
add_pack s pack = record s { packlist = s.packlist ++ (pack ∷ []) }

unfoldable pub swap_packs : Service → List ℕ → Service × List ℕ
swap_packs s list = (record s { packlist = list }, s.packlist)
