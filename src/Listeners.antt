-- ===== src/Listeners.antt =====
-- The listeners of config/context.go: the package keeps those of events by name, those of messages
-- and those of the online status.
pub mod Laws
pub mod Sessions
mod Tests
use jian_yu_server_lib.Base.{ℕ, Bool, Option, List, [], ◌∷◌, ◌++◌, length, ltb, if◌then◌else◌}
use jian_yu_server_lib.Strings.{Str, str_eq}

-- The functions are told apart by type alone: `E` for events, `M` for messages, `O` for the status.
-- A key that the map lacks has the empty list.
pub record Listeners (E M O : Type 0) : Type 0 where
  pub events : Str → List E
  pub messages : List M
  pub statuses : List O

-- The loop of NotifyMessagesListeners.
abbrev pub calls {ℓ κ} : {M : Type ℓ} {X : Type κ} → List M → X → List (M × X)
calls [] messages = []
calls (listener ∷ rest) messages = (listener, messages) ∷ calls rest messages

module _ {E M O : Type 0} where
  abbrev pub no_listeners : Listeners E M O
  no_listeners = record { events = λ event. []; messages = []; statuses = [] }

  abbrev pub put_events : Listeners E M O → Str → List E → Listeners E M O
  put_events c event listeners = record {
    events = λ name. if str_eq name event then listeners else c.events name;
    messages = c.messages;
    statuses = c.statuses;
  }

  -- GetEventListeners
  abbrev pub get_event_listeners : Listeners E M O → Str → List E
  get_event_listeners c event = c.events event

  -- AddEventListener
  abbrev pub add_event_listener : Listeners E M O → Str → E → Listeners E M O
  add_event_listener c event listener = put_events c event (c.events event ++ (listener ∷ []))

  -- JyAddEventListener: only the first one.
  abbrev pub jy_add_event_listener : Listeners E M O → Str → E → Listeners E M O
  jy_add_event_listener c event listener =
      if ltb (length (get_event_listeners c event)) 1
      then put_events c event (c.events event ++ (listener ∷ []))
      else c

  -- AddOnlineStatusListener
  abbrev pub add_online_status_listener : Listeners E M O → O → Listeners E M O
  add_online_status_listener c listener = record {
    events = c.events;
    messages = c.messages;
    statuses = c.statuses ++ (listener ∷ []);
  }

  -- GetAllOnlineStatusListeners
  abbrev pub get_all_online_status_listeners : Listeners E M O → List O
  get_all_online_status_listeners c = c.statuses

  -- AddMessagesListener
  abbrev pub add_messages_listener : Listeners E M O → M → Listeners E M O
  add_messages_listener c listener = record {
    events = c.events;
    messages = c.messages ++ (listener ∷ []);
    statuses = c.statuses;
  }

  -- NotifyMessagesListeners: the calls that it makes, each of a listener with the messages.
  abbrev pub notify_messages_listeners {ℓ} : {X : Type ℓ} → Listeners E M O → X → List (M × X)
  notify_messages_listeners c messages = calls c.messages messages
