-- ===== src/FrpServer/Defs.antt =====
-- pkg/controller/frpserver_controller.go: the reconciler that logs in to each frp server and publishes
-- the result in the status of the object. Log lines are left out.
use frp_provisioner.Prelude.{String, ◌<>◌, [], ◌∷◌, Option, none, some, ◌==◌, if◌then◌else◌}
use frp_provisioner.Go.{GoError, error_text, M, pure, handle, error_of, return_error, ◌>>=◌}
use frp_provisioner.Kube.{
  ObjectKey, Condition, condition_true, Machinery, Client, Call, World, perform,
}
use frp_provisioner.Api.{
  FrpServer, FrpServerStatus, phase_unknown, phase_pending, phase_healthy, phase_unhealthy,
  reason_initialized, reason_initialize_failed,
}
use frp_provisioner.FrpClient.{Host, validate_frp_server_config}

abbrev pub healthy_text : String
healthy_text = "FrpServer is healthy"

abbrev pub invalid_text : GoError → String
invalid_text e = "Invalid frp config: " <> error_text e

abbrev pub with_status : FrpServer → FrpServerStatus → FrpServer
with_status obj status = record obj { status = status }

-- The two conditions that are set.
abbrev pub failed_condition : GoError → String → Condition
failed_condition e time = record {
  kind = "Initialized";
  status = condition_true;
  reason = reason_initialize_failed;
  last_transition_time = time;
  message = invalid_text e;
}

abbrev pub healthy_condition : String → Condition
healthy_condition time = record {
  kind = "Initialized";
  status = condition_true;
  reason = reason_initialized;
  last_transition_time = time;
  message = healthy_text;
}

module _ (L : Machinery) where
  unfoldable pub unhealthy_status : FrpServerStatus → GoError → String → FrpServerStatus
  unhealthy_status s e time = record s {
    conditions = L.set_status_condition s.conditions (failed_condition e time);
    phase = phase_unhealthy;
    reason = invalid_text e;
  }

  unfoldable pub healthy_status : FrpServerStatus → String → FrpServerStatus
  healthy_status s time = record s {
    conditions = L.set_status_condition s.conditions (healthy_condition time);
    phase = phase_healthy;
    reason = healthy_text;
  }

  module _ (C : Client) where
    -- `return ctrl.Result{}, utilerrors.NewAggregate([]error{err, r.Status().Update(ctx, &obj)})`
    unfoldable pub publish : Option GoError → FrpServer → M (World C) (Unit {0})
    publish e obj = error_of (perform (Call.update_status obj) (C.update_status obj)) >>= λ u.
        return_error (L.new_aggregate (e ∷ u ∷ []))

    module _ (H : Host C.State) where
      -- The two ends behind the login check.
      unfoldable pub report : FrpServer → Option GoError → M (World C) (Unit {0})
      unfolding publish unhealthy_status healthy_status
      report obj (some e) w =
          publish (some e) (with_status obj (unhealthy_status obj.status e (H.now w.store))) w
      report obj none w =
          publish none (with_status obj (healthy_status obj.status (H.now w.store))) w

      unfoldable pub inspect : FrpServer → M (World C) (Unit {0})
      unfolding publish report
      inspect obj =
          if obj.status.phase == phase_unknown
          then publish none (with_status obj (record obj.status { phase = phase_pending }))
          else error_of (validate_frp_server_config C H obj.spec) >>= report obj

      -- An error of Get is dropped, whatever it is.
      unfoldable pub reconcile_frp_server : ObjectKey → M (World C) (Unit {0})
      unfolding inspect
      reconcile_frp_server key =
          handle (perform (Call.get_frp_server key) (C.get_frp_server key))
            (λ e. if L.is_not_found e then pure tt else pure tt) inspect
