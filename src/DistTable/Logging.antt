-- ===== src/DistTable/Logging.antt =====
-- From `addClick` and `addItem` through the log files to `trainPeriodicLog`.
use mathlib.Core.List.{append-nil, append_assoc}
use content_based.Base.{◌≡◌, refl, sym, ap, ◌∙◌, Option, none, some, List, [], ◌∷◌, ◌++◌, ℕ}
use content_based.Status.{Status, Run, then_run, then_run-ok}
use content_based.Storage.{Bytes, LogFile, Storage, IsReliable, readable}
use content_based.Protocol.{CategoryClick, CategoryItem, Protocol, IsRoundTrip}
use content_based.PeriodicLog.{
  PeriodicLog, Iterator, filename, is_file_exist, reader_open, opened, write,
}
use content_based.PeriodicLog
use content_based.PeriodicLog.Decimal.{atoi}
use content_based.PeriodicLog.Rollover.{rollover_lem}
use content_based.DistTable.{
  DistTable, log_type_click, log_type_item, dispatch, read_records, read_periodic_log, train_file,
  log_message, add_click, add_item, rollover,
}

-- What a table is told.
pub data Event : Type 0 where
  clicked : CategoryClick → Event
  listed : CategoryItem → Event

-- The events handed to the methods of a table, in order.
unfoldable pub replay :
    {S : Type 0} → (CategoryClick → Run S) → (CategoryItem → Run S) → List Event → S → S
replay clickf itemf [] s = s
replay clickf itemf (clicked c ∷ es) s = replay clickf itemf es (clickf c s).1
replay clickf itemf (listed i ∷ es) s = replay clickf itemf es (itemf i s).1

module _ {W S F : Type 0} (st : Storage W) (pr : Protocol F) (dt : DistTable W S F) where
  unfoldable pub add_event : Event → Run (PeriodicLog W S)
  add_event (clicked c) = add_click st pr dt c
  add_event (listed i) = add_item st pr dt i

  unfoldable pub add_events : List Event → Run (PeriodicLog W S)
  add_events [] t = (Status.ok, t)
  add_events (e ∷ es) t = then_run (add_event e t) (add_events es)

module _ {F : Type 0} (pr : Protocol F) where
  -- A record holds an event.
  abbrev pub Holds : Bytes → Event → Type 0
  Holds r (clicked c) = (b : Bytes) × (pr.encode_click c ≡ some b) × (r ≡ log_type_click ∷ b)
  Holds r (listed i) = (b : Bytes) × (pr.encode_item i ≡ some b) × (r ≡ log_type_item ∷ b)

  abbrev pub HoldAll : List Bytes → List Event → Type 0
  HoldAll [] [] = Unit
  HoldAll (r ∷ rs) (e ∷ es) = Holds r e × HoldAll rs es
  HoldAll _ _ = ⊥

  pub HoldAll-append :
      (rs qs : List Bytes) (es fs : List Event)
      → HoldAll rs es
      → HoldAll qs fs
      → HoldAll (rs ++ qs) (es ++ fs)
  HoldAll-append [] qs [] fs h k = k
  HoldAll-append (r ∷ rs) qs (e ∷ es) fs (h, hs) k = (h, HoldAll-append rs qs es fs hs k)
  HoldAll-append [] qs (e ∷ es) fs h k = absurd h
  HoldAll-append (r ∷ rs) qs [] fs h k = absurd h

module _ {S F : Type 0} (pr : Protocol F) (back : IsRoundTrip pr) (clickf : CategoryClick → Run S)
    (itemf : CategoryItem → Run S) where
  -- Reading records back hands each event to its method, in order.
  read_records-replay :
      (rs : List Bytes) (es : List Event) (s : S)
      → HoldAll pr rs es
      → read_records pr clickf itemf (readable rs) s ≡ replay clickf itemf es s
  unfolding read_records dispatch replay
  read_records-replay [] [] s h = refl
  read_records-replay [] (e ∷ es) s h = absurd h
  read_records-replay (r ∷ rs) [] s h = absurd h
  read_records-replay (r ∷ rs) (clicked c ∷ es) s ((b, e, q), hs) =
      rw (q, back.click_back c b e) (read_records-replay rs es (clickf c s).1 hs)
  read_records-replay (r ∷ rs) (listed i ∷ es) s ((b, e, q), hs) =
      rw (q, back.item_back i b e) (read_records-replay rs es (itemf i s).1 hs)

module _ {W S F : Type 0} (st : Storage W) (reliable : IsReliable st) (pr : Protocol F)
    (dt : DistTable W S F) where
  open st use {append}
  open reliable use {records, append_ok, open_log_ok, reads_ok, exists_some}

  -- What has been logged when the events of `es` were added to a log that held `rs`.
  pub record IsLogged (rs : List Bytes) (es : List Event) (t q : PeriodicLog W S) : Type 0 where
    pub added : List Bytes
    pub held : HoldAll pr added es
    pub written : records LogFile.writing q.disk ≡ some (rs ++ added)
    pub same_counter : q.last_counter ≡ t.last_counter

  pub log_message-IsLogged :
      (k : ℕ) (m : Option Bytes) (rs : List Bytes) (t : PeriodicLog W S)
      → records LogFile.writing t.disk ≡ some rs
      → (log_message st pr dt k m t).0 ≡ Status.ok
      → let q = (log_message st pr dt k m t).1 in
        (b : Bytes) × (m ≡ some b)
        × (records LogFile.writing q.disk ≡ some (rs ++ (k ∷ b) ∷ []))
        × (q.last_counter ≡ t.last_counter)
  unfolding log_message write
  log_message-IsLogged k none rs t h e = cc
  log_message-IsLogged k (some b) rs t h e = (b, refl, append_ok (k ∷ b) t.disk rs h e, refl)

  add_event-IsLogged :
      (e : Event) (rs : List Bytes) (t : PeriodicLog W S)
      → records LogFile.writing t.disk ≡ some rs
      → (add_event st pr dt e t).0 ≡ Status.ok
      → IsLogged rs (e ∷ []) t (add_event st pr dt e t).1
  unfolding add_event add_click add_item
  add_event-IsLogged (clicked c) rs t h e =
      let (b, m, w, n) = log_message-IsLogged log_type_click (pr.encode_click c) rs t h e in
      record {
        added = (log_type_click ∷ b) ∷ [];
        held = ((b, m, refl), tt);
        written = w;
        same_counter = n;
      }
  add_event-IsLogged (listed i) rs t h e =
      let (b, m, w, n) = log_message-IsLogged log_type_item (pr.encode_item i) rs t h e in
      record {
        added = (log_type_item ∷ b) ∷ [];
        held = ((b, m, refl), tt);
        written = w;
        same_counter = n;
      }

  pub add_events-IsLogged :
      (es : List Event) (rs : List Bytes) (t : PeriodicLog W S)
      → records LogFile.writing t.disk ≡ some rs
      → (add_events st pr dt es t).0 ≡ Status.ok
      → IsLogged rs es t (add_events st pr dt es t).1
  unfolding add_events
  add_events-IsLogged [] rs t h ok = record {
    added = [];
    held = tt;
    written = rw (append-nil rs) h;
    same_counter = refl;
  }
  add_events-IsLogged (e ∷ es) rs t h ok =
      let (first, later) = then_run-ok (add_event st pr dt e t) (add_events st pr dt es) ok in
      let one = add_event-IsLogged e rs t h first in
      let rest =
        add_events-IsLogged es (rs ++ one.added) (add_event st pr dt e t).1 one.written
          (sym (ap (λ s. s.0) later) ∙ ok) in
      rw later (record {
        added = one.added ++ rest.added;
        held = HoldAll-append pr one.added rest.added (e ∷ []) es one.held rest.held;
        written = rest.written ∙ ap some (append_assoc rs one.added rest.added);
        same_counter = rest.same_counter ∙ one.same_counter;
      })

  reader_open-ok :
      (it : Iterator) (w : W) (d : Bytes) (rs : List Bytes)
      → records (LogFile.numbered it.counter) w ≡ some (d ∷ rs)
      → reader_open st it w ≡ opened (atoi d) (readable rs)
  unfolding reader_open
  reader_open-ok it w d rs h =
      rw (open_log_ok w (LogFile.numbered it.counter) (d ∷ rs) h)
        (rw (reads_ok w (LogFile.numbered it.counter) (d ∷ rs) h))

  module _ (back : IsRoundTrip pr) where
    -- A log file whose records after the header hold the events: training reads them all.
    pub train_file-replay :
        (it : Iterator) (t : PeriodicLog W S) (d : Bytes) (rs : List Bytes) (es : List Event)
        → records (LogFile.numbered it.counter) t.disk ≡ some (d ∷ rs)
        → HoldAll pr rs es
        → train_file st pr dt it t
          ≡ record t { target = replay dt.train_click dt.train_item es t.target }
    unfolding train_file read_periodic_log is_file_exist
    train_file-replay it t d rs es h held =
        rw (exists_some t.disk (LogFile.numbered it.counter) (d ∷ rs) h) (
          rw (reader_open-ok it t.disk d rs h, read_periodic_log)
            (rw (read_records-replay pr back dt.train_click dt.train_item rs es t.target held)))

    -- A table whose log holds nothing but its header is told the events `es`, and rolls the log
    -- over; then training from the file with the old counter hands exactly these events to the
    -- methods of the table, in order, and changes nothing else.
    pub train_file-add_events :
        (d : Bytes) (t : PeriodicLog W S) (es : List Event) (it : Iterator)
        → records LogFile.writing t.disk ≡ some (d ∷ [])
        → (add_events st pr dt es t).0 ≡ Status.ok
        → let p = (add_events st pr dt es t).1 in
          (rollover st pr dt p).0 ≡ Status.ok
          → it.counter ≡ t.last_counter
          → let q = (rollover st pr dt p).1 in
            train_file st pr dt it q
            ≡ record q { target = replay dt.train_click dt.train_item es q.target }
    unfolding rollover
    train_file-add_events d t es it h ok rolled at =
        let logged = add_events-IsLogged es (d ∷ []) t h ok in
        let p = (add_events st pr dt es t).1 in
        let archived = (rollover_lem st reliable p _ logged.written rolled).0 in
        train_file-replay it (package.content_based.PeriodicLog.rollover st p).1 d logged.added es
          (rw (at ∙ sym logged.same_counter) archived) logged.held
