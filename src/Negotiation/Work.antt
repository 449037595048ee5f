-- ===== src/Negotiation/Work.antt =====
-- `RunCredentialWork`: expensive work is charged to its source and run at once, or handed to a
-- dispatcher that charges it when a worker is free.
pub mod Rooms
use crossdesk_server.Common.{ℕ, String, List, [], ◌∷◌, ◌==◌, ltb, if◌then◌else◌, string_key, set}
use crossdesk_server.AuthLimiter.Work as Work
use crossdesk_server.AuthLimiter.Work.{WorkLimiter}
use crossdesk_server.Transmission.State.{Handle}
use crossdesk_server.Transmission.Connections.{get_verified_device_id}
use crossdesk_server.Negotiation.Json.{integer, Object}
use crossdesk_server.Negotiation.State.{Environment, Negotiation, send, set_failure}

-- Whether there is a dispatcher, and whether it takes the work.
pub data Dispatch : Type 0 where
  absent accepts refuses : Dispatch

pub data Start : Type 0 where
  run_now queued rejected : Start

-- The names of a source: its verified controller, or else its address.
unfoldable pub principal : String → String → List String
principal controller source_address =
    (if controller == "" then "ip" else "controller")
    ∷ (if controller == ""
        then (if source_address == "" then "unknown" else source_address)
        else controller)
    ∷ []

module _ {D R : Type 0} (env : Environment D R) where
  -- `expired`, for work that waited too long or was not taken.
  pub expire_work : Negotiation D → Handle → Object → Negotiation D
  expire_work s hdl failure = send s hdl (
      set "retry_after" (integer 1)
        (set_failure failure "CREDENTIAL_SERVICE_BUSY" "Credential service busy"))

  -- `admit`: 0, or the seconds to wait.
  pub admit : Negotiation D → Handle → String → Negotiation D × ℕ
  unfolding principal
  admit s hdl source_address =
      let key = env.dump (principal (get_verified_device_id s.manager hdl) source_address) in
      let r = Work.admit s.work env.now key in (record s { work = r.0 }, r.1)

  charged : Negotiation D × ℕ → Handle → Object → Negotiation D × Start
  charged (s, delay) hdl failure =
      if ltb 0 delay
      then (
        send s hdl (
            set "retry_after" (integer delay)
              (set_failure failure "CREDENTIAL_RATE_LIMITED" "Too many credential requests")),
        rejected,
      )
      else (s, run_now)

  pub run_credential_work :
      Negotiation D → Handle → String → Object → Dispatch → Negotiation D × Start
  unfolding expire_work admit charged
  run_credential_work s hdl source_address failure absent =
      charged (admit s hdl source_address) hdl failure
  run_credential_work s hdl source_address failure accepts = (s, queued)
  run_credential_work s hdl source_address failure refuses = (expire_work s hdl failure, rejected)
