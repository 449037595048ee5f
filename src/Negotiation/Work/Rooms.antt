-- ===== src/Negotiation/Work/Rooms.antt =====
-- Charging for expensive work, or handing it over, leaves the rooms and connections alone.
use crossdesk_server.Common.{String, ◌≡◌, refl, ltb, Bool-cases, inl, inr}
use crossdesk_server.Transmission.State.{Handle}
use crossdesk_server.Negotiation.Json.{Object}
use crossdesk_server.Negotiation.State.{Environment, Negotiation}
use crossdesk_server.Negotiation.Work.{
  Dispatch, absent, accepts, refuses, charged, expire_work, admit, run_credential_work,
}

module _ {D R : Type 0} (env : Environment D R) where
  pub run_credential_work-manager :
      (s : Negotiation D) (hdl : Handle) (source : String) (failure : Object) (d : Dispatch)
      → (run_credential_work env s hdl source failure d).0.manager ≡ s.manager
  unfolding run_credential_work charged expire_work admit
  run_credential_work-manager s hdl source failure absent =
      elim (Bool-cases (ltb 0 (admit env s hdl source).1)) [ inl e ↦ rw e refl | inr e ↦ rw e refl ]
  run_credential_work-manager s hdl source failure accepts = refl
  run_credential_work-manager s hdl source failure refuses = refl
