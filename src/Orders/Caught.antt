-- ===== src/Orders/Caught.antt =====
-- app/nico_fake.py under app/lifecycle.py: the calls that raise nothing but HTTPException, so that
-- `except HTTPException` catches all of it.
use neo_cloud_control_plane.Prelude.{
  ℕ, zero, suc, String, ◌≡◌, refl, arith, Bool, true, false, Option, none, some, List, eqb,
  if◌then◌else◌,
}
use neo_cloud_control_plane.Prelude.Exec.{
  Exec, Result, ok, err, pure, or_raise, require, gets, modify, continue, ◌>>=◌,
}
use neo_cloud_control_plane.Dict.{get}
use neo_cloud_control_plane.Nico.{
  Nico, Host, HostState, Job, JobOp, JobState, running, succeeded, failed, host_of, require_state,
}
use neo_cloud_control_plane.Nico.Hosts.{get_host, unreserve, release, abort_provision, sanitize}
use neo_cloud_control_plane.Nico.Jobs.{
  finish_job, new_job, get_job, wait_job, consume_failure, current, poll,
}
use neo_cloud_control_plane.Lifecycle.{World, CpuNode}
use neo_cloud_control_plane.Orders.{on_nico, attempt, caught}
use neo_cloud_control_plane.Orders.Kubernetes.{undo_cp, free_host}

abbrev is_uncaught : {A : Type 0} → Result A → Bool
is_uncaught (ok a) = false
is_uncaught (err c) = eqb c 500

pub record IsCaught {S A : Type 0} (m : Exec S A) : Type 0 where
  pub at : (s : S) → is_uncaught (m s).0 ≡ false

module _ {S : Type 0} where
  module _ {A : Type 0} where
    IsCaught-pure : (a : A) → IsCaught {S = S} (pure a)
    IsCaught-pure a = record { at = λ s. refl }

    IsCaught-gets : (f : S → A) → IsCaught (gets f)
    IsCaught-gets f = record { at = λ s. refl }

    IsCaught-or_raise : (o : Option A) (c : ℕ) → eqb c 500 ≡ false → IsCaught {S = S} (or_raise o c)
    IsCaught-or_raise none c e = record { at = λ s. e }
    IsCaught-or_raise (some a) c e = record { at = λ s. refl }

    IsCaught-if :
        (b : Bool) (m n : Exec S A) → IsCaught m → IsCaught n → IsCaught (if b then m else n)
    IsCaught-if true m n cm cn = cm
    IsCaught-if false m n cm cn = cn

  IsCaught-modify : (f : S → S) → IsCaught (modify f)
  IsCaught-modify f = record { at = λ s. refl }

  IsCaught-require : (b : Bool) (c : ℕ) → eqb c 500 ≡ false → IsCaught {S = S} (require b c)
  IsCaught-require true c e = record { at = λ s. refl }
  IsCaught-require false c e = record { at = λ s. e }

  module _ {A B : Type 0} where
    continue-IsCaught :
        (r : Result A) (f : A → Exec S B) (s : S)
        → is_uncaught r ≡ false
        → ((a : A) → IsCaught (f a))
        → is_uncaught (continue r f s).0 ≡ false
    continue-IsCaught (ok a) f s h k = (k a).at s
    continue-IsCaught (err c) f s h k = h

    IsCaught-bind :
        (m : Exec S A) (f : A → Exec S B)
        → IsCaught m
        → ((a : A) → IsCaught (f a))
        → IsCaught (m >>= f)
    IsCaught-bind m f cm cf = record { at = λ s. continue-IsCaught (m s).0 f (m s).1 (cm.at s) cf }

ruleset caught_rules = (
  IsCaught-pure, IsCaught-gets, IsCaught-or_raise, IsCaught-if, IsCaught-modify, IsCaught-require,
  IsCaught-bind, refl,
)

host_of-IsCaught : (hid : String) → IsCaught (host_of hid)
unfolding host_of
host_of-IsCaught hid = record {
  at = λ n. (IsCaught-or_raise {S = Nico} (get hid n.hosts) 404 refl).at n;
}

require_state-IsCaught : (h : Host) (states : List HostState) → IsCaught (require_state h states)
require_state-IsCaught h states = search caught_rules

get_host-IsCaught : (hid : String) → IsCaught (get_host hid)
unfolding get_host
get_host-IsCaught hid = host_of-IsCaught hid

finish_job-IsCaught : (job : Job) (fail : Bool) → IsCaught (finish_job job fail)
unfolding finish_job
finish_job-IsCaught job fail = search (caught_rules, host_of-IsCaught)

unreserve-IsCaught : (hid : String) → IsCaught (unreserve hid)
unfolding unreserve
unreserve-IsCaught hid = search (caught_rules, host_of-IsCaught, require_state-IsCaught) depth 10

abort_provision-IsCaught : (hid : String) → IsCaught (abort_provision hid)
unfolding abort_provision
abort_provision-IsCaught hid =
    search (caught_rules, host_of-IsCaught, require_state-IsCaught) depth 10

current-IsCaught : (job : Job) → IsCaught (current job)
current-IsCaught job = record { at = λ n. refl }

consume_failure-IsCaught : (hid op : String) → IsCaught (consume_failure hid op)
unfolding consume_failure
consume_failure-IsCaught hid op = record { at = λ n. ground arith }

new_job-IsCaught : (op : JobOp) (h : Host) (fail : Bool) → IsCaught (new_job op h fail)
unfolding new_job
new_job-IsCaught op h fail = search (caught_rules, finish_job-IsCaught, current-IsCaught) depth 10

release-IsCaught : (i : String) → IsCaught (release i)
unfolding release
release-IsCaught i = search (caught_rules, new_job-IsCaught) depth 10

sanitize-IsCaught : (hid : String) → IsCaught (sanitize hid)
unfolding sanitize
sanitize-IsCaught hid =
    search
      (
        caught_rules, host_of-IsCaught, require_state-IsCaught, consume_failure-IsCaught,
        new_job-IsCaught,
      )
      depth 10

poll-IsCaught : (s : JobState) (job : Job) → IsCaught (poll s job)
poll-IsCaught running job = search (caught_rules, finish_job-IsCaught) depth 10
poll-IsCaught succeeded job = search caught_rules
poll-IsCaught failed job = search caught_rules

get_job-IsCaught : (jid : String) → IsCaught (get_job jid)
unfolding get_job
get_job-IsCaught jid = search (caught_rules, poll-IsCaught, current-IsCaught) depth 10

wait_job-IsCaught : (polls : ℕ) (job : Job) → IsCaught (wait_job polls job)
unfolding wait_job
wait_job-IsCaught zero job = record { at = λ n. refl }
wait_job-IsCaught (suc polls) job = record {
  at =
      by_state job.state refl
        (IsCaught-bind _ _ (get_job-IsCaught job.job_id) (wait_job-IsCaught polls));
}
  where
    by_state :
        (s : JobState)
        → job.state ≡ s
        → IsCaught (get_job job.job_id >>= wait_job polls)
        → (n : Nico) → is_uncaught (wait_job (suc polls) job n).0 ≡ false
    by_state running e c n = rw e (c.at n)
    by_state succeeded e c n = rw e refl
    by_state failed e c n = rw e refl

module _ {N : Type 0} where
  IsCaught-on_nico :
      {A : Type 0} (m : Exec Nico A) → IsCaught m → IsCaught {S = World N} (on_nico m)
  IsCaught-on_nico m c = record { at = λ w. c.at w.nico }

  free_host-IsCaught : (i : Option String) (hid : String) → IsCaught {S = World N} (free_host i hid)
  free_host-IsCaught none hid =
      search (caught_rules, IsCaught-on_nico, abort_provision-IsCaught) depth 10
  free_host-IsCaught (some i) hid =
      search
        (
          caught_rules, IsCaught-on_nico, abort_provision-IsCaught, release-IsCaught,
          wait_job-IsCaught,
        )
        depth 10

  -- the way back of a control plane node on NICo
  pub undo_cp-IsCaught : (c : CpuNode) → IsCaught {S = World N} (undo_cp c)
  undo_cp-IsCaught c =
      search
        (
          caught_rules, IsCaught-on_nico, get_host-IsCaught, unreserve-IsCaught, free_host-IsCaught,
          sanitize-IsCaught, wait_job-IsCaught,
        )
        depth 14

  -- what raises nothing else returns when it is tried
  pub attempt-IsCaught :
      {A : Type 0} (m : Exec (World N) A) (w : World N)
      → IsCaught m
      → (o : Option A) × (attempt m w ≡ (ok o, (m w).1))
  attempt-IsCaught {A = A} m w c = tried (m w).0 (c.at w)
    where
      tried :
          (r : Result A)
          → is_uncaught r ≡ false
          → (o : Option A) × (caught r (m w).1 ≡ (ok o, (m w).1))
      tried (ok a) h = (some a, refl)
      tried (err code) h = (none, rw h refl)
