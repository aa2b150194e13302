-- ===== src/FdList.antt =====
-- The lists of descriptors for poll in src/utils.c: fdlist_create, fdlist_add, fdlist_reset,
-- fdlist_free. The two arrays are one list of the entries that were written.
pub mod Kept
use usbmuxd.Prelude.{List, [], if◌then◌else◌, ltb, ℕ, ◌*◌, ◌++◌, ◌+◌, ◌==◌, ◌∷◌}
use usbmuxd.World.{M, crash, pure, ◌>>=◌, ◌>>◌}

-- `enum fdowner`.
pub data FdOwner : Type 0 where
  fd_listen fd_client fd_usb : FdOwner

pub record Entry : Type 0 where
  pub owner : FdOwner
  pub fd : ℕ
  pub events : ℕ

pub record FdList : Type 0 where
  pub count : ℕ
  pub capacity : ℕ
  pub entries : List Entry

abbrev pub fdlist_create : FdList
fdlist_create = record { count = 0; capacity = 4; entries = [] }

abbrev pub fdlist_free : FdList
fdlist_free = record { count = 0; capacity = 0; entries = [] }

abbrev pub fdlist_reset : FdList → FdList
fdlist_reset list = record list { count = 0; entries = [] }

-- The arrays are twice as long where they were full.
abbrev pub grown : FdList → ℕ
grown list = if list.count == list.capacity then list.capacity * 2 else list.capacity

-- A write behind the arrays is a fault.
unfoldable pub fdlist_add : FdList → FdOwner → ℕ → ℕ → M FdList
fdlist_add list owner fd events =
    if ltb list.count (grown list)
    then pure (record {
      count = list.count + 1;
      capacity = grown list;
      entries = list.entries ++ (record { owner = owner; fd = fd; events = events } ∷ []);
    })
    else crash

-- One owner's descriptors, in their order.
unfoldable pub fdlist_add_all : FdList → FdOwner → List (ℕ × ℕ) → M FdList
unfolding fdlist_add
fdlist_add_all list owner [] = pure list
fdlist_add_all list owner ((fd, events) ∷ fds) = do
  list' ← fdlist_add list owner fd events
  fdlist_add_all list' owner fds
