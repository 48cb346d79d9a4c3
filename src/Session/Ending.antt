-- ===== src/Session/Ending.antt =====
-- The end of a session's online loop and its offline loop, in rmqtt/src/broker/session.rs, as far as they
-- decide on the will and on whether the session is cleaned. What happens in the offline loop is a list of
-- events; the messages that it queues are those of Queue.
pub mod Clean
pub mod Wills
mod Tests
use rmqtt.Common.{
  ℕ, ◌==◌, ◌&&◌, ◌||◌, not, Bool, true, false, Option, none, some, List, [], ◌∷◌, ◌++◌,
  if◌then◌else◌, is_some,
}
use rmqtt.Types.{Publish}
use rmqtt.Fitter.{
  Listener, ConnectInfo, v3, v5, LastWill, last_will, will_delay, Disconnect,
  session_expiry_interval,
}

-- `StateFlags` of types.rs, less `Ping`.
pub record StateFlags : Type 0 where
  pub kicked : Bool
  pub by_admin_kick : Bool
  pub disconnect_received : Bool
  pub clean_start : Bool

-- A kick whose sender still waits.
abbrev pub insert_kick : Bool → Bool → StateFlags → StateFlags
insert_kick clean_start is_admin flags = record flags {
  kicked = true;
  by_admin_kick = flags.by_admin_kick || is_admin;
  clean_start = flags.clean_start || clean_start;
}

unfoldable pub last_will_enable : StateFlags → Bool → Bool
last_will_enable flags clean_session =
    let session_present = flags.kicked && (not flags.clean_start && not clean_session) in
    not (flags.disconnect_received || session_present)

-- `SessionState::clean_session`.
unfoldable pub clean_session : Listener → ConnectInfo → Option Disconnect → Bool
clean_session l (v3 c) d = c.clean_session
clean_session l (v5 c) d = session_expiry_interval l (v5 c) d == 0

-- The state of the offline loop. `wills` are the wills that were given to `forwards`; `running` ends
-- with the loop.
pub record Offline : Type 0 where
  pub flags : StateFlags
  pub will_delay_interval : Option ℕ
  pub wills : List Publish
  pub running : Bool

-- `process_last_will`; `published` is what the hook for published messages makes of it.
unfoldable pub process_last_will : (Publish → Publish) → ConnectInfo → List Publish → List Publish
process_last_will published c wills = elim (last_will c) [
  | some lw ↦ wills ++ published lw.publish ∷ []
  | none ↦ wills
]

-- What the offline loop receives: a message to queue, a kick with whether its sender waits, another
-- message, the end of the channel, and the two timers.
pub data Event : Type 0 where
  forward : Event
  kick : Bool → Bool → Bool → Event
  other : Event
  hung_up : Event
  session_expiry_delay : Event
  will_delay_interval_delay : Event

module _ (published : Publish → Publish) (c : ConnectInfo) where
  -- One round of `offline_start`.
  unfoldable pub offline_step : Event → Offline → Offline
  offline_step forward o = o
  offline_step (kick waiting clean_start is_admin) o =
      if waiting
      then record o { flags = insert_kick clean_start is_admin o.flags; running = false }
      else o
  offline_step other o = o
  offline_step hung_up o = record o { running = false }
  offline_step session_expiry_delay o = record o {
    wills =
        if is_some o.will_delay_interval then process_last_will published c o.wills else o.wills;
    running = false;
  }
  offline_step will_delay_interval_delay o =
      if is_some o.will_delay_interval
      then record o { wills = process_last_will published c o.wills; will_delay_interval = none }
      else o

  -- `offline_start`, over the events that come.
  unfoldable pub offline_start : List Event → Offline → Offline
  offline_start [] o = o
  offline_start (e ∷ es) o = if o.running then offline_start es (offline_step e o) else o

  -- The will at the end of the online loop.
  unfoldable pub end_will : Bool → StateFlags → Offline
  end_will clean flags =
      let o : Offline = record {
        flags = flags;
        will_delay_interval = none;
        wills = [];
        running = true;
      } in
      if last_will_enable flags clean
      then (if clean || not (is_some (will_delay c))
          then record o { wills = process_last_will published c [] }
          else record o { will_delay_interval = will_delay c })
      else o

  -- From the end of the online loop on: the state at the end, and whether the session was cleaned.
  unfoldable pub finish : Bool → StateFlags → List Event → Offline × Bool
  finish clean flags es =
      let o = end_will clean flags in
      if flags.kicked
      then (o, flags.by_admin_kick)
      else if clean
      then (o, true)
      else (let o' = offline_start es o in (o', not o'.flags.kicked))

  -- `offline_restart` has no connection before it.
  unfoldable pub offline_restart : Bool → List Event → Offline × Bool
  offline_restart clean es =
      let none_set : StateFlags = record {
        kicked = false;
        by_admin_kick = false;
        disconnect_received = false;
        clean_start = false;
      } in
      let o' = offline_start es (end_will clean none_set) in (o', not o'.flags.kicked)
