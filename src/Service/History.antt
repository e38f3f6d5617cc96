-- ===== src/Service/History.antt =====
-- Histories of a service: the registry is in order in all of them.
use multithread_libevent_exa.Prelude.{
  ℕ, suc, ◌^◌, ◌<◌, ◌≡◌, refl, sym, subst, ◌∙◌, Bool, List, Option, none, some,
}
use multithread_libevent_exa.Service.{
  Conn, Service, new_service, find, do_accept, ws_client_read_cb, add_pack, swap_packs,
}
use multithread_libevent_exa.Service.Registry.{count, IsRegistered}
use multithread_libevent_exa.Service.Keep.{do_accept-IsRegistered, client_read_cb_lem}

new_service-IsRegistered : IsRegistered new_service
unfolding new_service count
new_service-IsRegistered = record { same = refl; numbered = tt; balanced = λ fd. refl }

-- What happens to a service: a connection is accepted, at an address that `new` finds free and with
-- fewer than 2^32 numbers given out; a callback on a live connection; a packet comes, or is taken.
pub data Step (s u : Service) : Type 0 where
  accepts :
      (addr : ℕ) (accepted : Option ℕ) (nonblocking : Bool)
      → find addr s.objects ≡ none
      → suc s.unique_id < 2 ^ 32
      → u ≡ do_accept s addr accepted nonblocking
      → Step s u
  reads :
      (addr : ℕ) (c : Conn) (failed : Bool)
      → find addr s.objects ≡ some c
      → ws_client_read_cb s addr failed ≡ some u
      → Step s u
  packs : (pack : ℕ) → u ≡ add_pack s pack → Step s u
  takes : (list : List ℕ) → u ≡ (swap_packs s list).0 → Step s u

pub data Reach (s : Service) : Service → Type 0 where
  here : Reach s s
  later : {t u : Service} → Reach s t → Step t u → Reach s u

Step-IsRegistered : {s u : Service} → Step s u → IsRegistered s → IsRegistered u
unfolding add_pack swap_packs
Step-IsRegistered {s} (accepts addr a nb free few e) i =
    subst IsRegistered (sym e) (do_accept-IsRegistered s addr a nb i free few)
Step-IsRegistered {s} {u} (reads addr c failed f e) i =
    let (s1, r, r', o, i1) = client_read_cb_lem s addr c failed i f in
    subst IsRegistered (from_some (sym r ∙ e)) i1
  where
    from_some : {s1 : Service} → some s1 ≡ some u → s1 ≡ u
    from_some h = cc
Step-IsRegistered {s} (packs pack e) i =
    subst IsRegistered (sym e)
      (record { same = i.same; numbered = i.numbered; balanced = i.balanced })
Step-IsRegistered {s} (takes list e) i =
    subst IsRegistered (sym e)
      (record { same = i.same; numbered = i.numbered; balanced = i.balanced })

-- Take any history of a WsService from its start in which connections are accepted (each at an address
-- that no live connection has, and with fewer than 2^32 numbers given out), callbacks come for live
-- connections, and packets come and are taken. In every state of it, the registry has the live
-- connections and no others, each under its own number; no two of them have the same number or
-- address; and each accepted descriptor is closed or held by a live connection, counted with
-- multiplicity.
pub Reach-IsRegistered : {u : Service} → Reach new_service u → IsRegistered u
Reach-IsRegistered here = new_service-IsRegistered
Reach-IsRegistered (later r st) = Step-IsRegistered st (Reach-IsRegistered r)
