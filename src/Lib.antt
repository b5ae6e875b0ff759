-- ===== src/Lib.antt =====
-- Cert-Publisher: the operator that keeps certificates on hosts in step with CertPublication
-- resources. This development models the parts of src/cert_publisher/ that decide what the operator
-- does: its work queue, its retries, its status reports, its client of the Kubernetes API, the
-- objects it builds for cert-manager, the reconcile passes over one publication, and the controller
-- that watches the API server and runs the passes, the provisioners of SSH, Windows and iDRAC 8 hosts
-- with the factory that builds them, and the entry point.
--
-- How the program runs: watcher threads (controller.py) turn the events of the API server into keys
-- and add them to the queue (workqueue.py); worker threads take a key, read the publication and reconcile it (reconcile.py), which calls the API server (kube.py,
-- certmanager.py) and the target host through a provisioner, and reports the outcome (status.py). A
-- result asks for the key again after a delay; a failure adds it again at a growing delay.
--
-- Which file models which part:
--   WorkQueue   workqueue.py, WorkQueue: the state as a record, each method under the lock a
--               function (add, add_after, get_round, done, shutdown). WorkQueue/Blocking: the loop
--               of get over the wakes of its thread. WorkQueue/Workers: the workers, as a step
--               relation. WorkQueue/Spec: the queue as its callers see it, by phases and deadlines;
--               Expiry, Refines: the methods do what it says. Invariant, Promotion, Pending: proofs.
--   Backoff     workqueue.py, ExponentialBackoff and RateLimitingQueue. Growth, Requeue: proofs.
--   Retry       retry.py, with_retries. Attempts: proofs.
--   Health      health.py, the answers to the probes. Answers: proofs.
--   Resources   the Kubernetes objects, with the fields that the operator reads.
--   Json        JSON values, for the bodies that are built and compared. Equality: proofs.
--   Effects     exceptions, the calls to the API server and the host, and actions: functions from a
--               state (the publication in memory, the history of calls, the readings of the clock)
--               to a result and a state. Effects/Hoare: a rule for each way to build an action.
--   Utils       utils.py: times, PEM, durations (Utils/Pem, Utils/Duration), the renewal window.
--   Kube        kube.py, class Kube, one action per method.
--   Status      status.py, set_status and what it calls. Conditions, Outcome: proofs.
--   Certmanager certmanager.py: the bodies, the drift, the usages of a CSR, the request's state. Drift: proofs.
--   Reconcile   reconcile.py, reconcile_publication. Reconcile/SecretKeyed and Reconcile/HostKeyed
--               are the two passes, Reconcile/Renewal the decisions, Reconcile/Signing the opening of
--               a signing round, Reconcile/Resolution the answer to a request. Reconcile/Policy says
--               when a call is permitted; Signing/Rounds, Resolution/Import, HostKeyed/Safety,
--               SecretKeyed/Safety and Safety prove it of the passes, HostKeyed/Cooldown is
--               about the cooldown.
--   Controller  controller.py. Controller/Keys: the keys of publications and of the objects that they
--               own; Owners: proofs. Controller/Watcher: the list, the watch and the seen filter of a
--               watcher; Seen: proofs. Controller/Watcher/Run: its loop, over iterations whose answers
--               are values; Position, Resuming, Clock: proofs. Controller/Wakeups: how the keys reach the queue.
--               Controller/Worker: a worker's round (_work, _reconcile, _fail, _requeue); Moves, Owed,
--               Failure: proofs. Controller/Lifecycle: the settings, start, stop and the probes;
--               Silence, Drained: proofs. WorkQueue/Owed says what the queue owes a key that a worker holds.
--   Provisioners  the package provisioners/, and wsman.py. Provisioners/Dialogue: talks, functions from a
--               trail of what was sent to an iDRAC host to a result and a trail; Keeps, Ends, Leads: a rule for
--               each way to build one. Provisioners/Xml: the trees of an answer. Provisioners/Wsman: the
--               client; Keeps: proofs. Provisioners/Idrac8: the provisioner; Keeps, Pinning, Subject,
--               Patience: proofs. Provisioners/Trace: runs over a trail, for the other hosts; Triple, Keeps: a
--               rule for each way to build one. Provisioners/Credentials: base.py; Local: proofs.
--               Provisioners/Ssh: ssh.py; Pinning, Staging, Sessions, Published, Stays: proofs. Of winrm.py,
--               Provisioners/Unattended is the PowerShell host, Provisioners/Powershell the scripts and
--               pools, Provisioners/WinrmSession the settings and the session, Provisioners/Winrm the
--               operations; Pinning, Ordering: proofs. Provisioners/Build: the from_spec of each
--               provisioner and __init__.py, build_provisioner; Local: proofs.
--   Driven      the passes over a provisioner, by the interface Provisioner of provisioners/base.py: the
--               host's trail is replayed from the history of calls. Converges, Installing, Passes: proofs
--               over SSH.
--   Main        main.py: the settings, the life of the process, its exit code. Exit: proofs.
--   Samples     data for the modules named Examples, which apply the theorems to concrete values.
--
-- What is a parameter: everything that is not in the repository; to the reconcile passes also the
-- provisioners. The records Outside of Provisioners/Dialogue, Ssh and Powershell hold what an iDRAC,
-- SSH or Windows host answers and the libraries of its provisioner, and Parts of Main how the parts of
-- the process answer. The record World of Effects holds the cryptography,
-- hashlib and base64 calls, the formats of datetime, the clock, the answers of the API server and
-- those of the target host. An answer may depend on all the calls made before it, so the outside is
-- an arbitrary one. What a theorem assumes of it, such as that the clock does not go back, stands above the theorem.
--
-- Numbers: the queue counts time in one unit, the passes in microseconds, from natural numbers; a
-- delay is an integer. The jitter of a retry is in thousandths, and its random draw an argument.
-- Fractions of a duration below the microsecond are cut, and its digits and spaces are those of
-- ASCII. The default renewal window, a third of the lifetime, is rounded to the microsecond,
-- with an exact third for the float. The one loop on fuel is that of apply_csr_subject in Provisioners/Idrac8: 31 rounds of 3 seconds are past its
-- deadline of 90. Every other loop is a recursion on its data.
--
-- Threads: what runs under the queue's lock is one step, and the steps of all threads interleave.
-- The notifications of the condition variable are not modelled: a wake of get may come at any time,
-- with any calls of the other threads before it. A worker's round meets any steps of the other
-- threads at each of its operations on the queue; the iterations of a watcher's loop are a list, and
-- the theorems are about every such list.
--
-- Not modelled: the threads of controller.py themselves, the HTTP server of health.py, the set-up of
-- logging and of the signal handlers in main.py, the PowerShell scripts under provisioners/scripts,
-- the adapter of tlspin.py, which is a setting of requests and urllib3, logging, and of an Event the
-- parts that identify it.
pub mod Prelude
pub mod WorkQueue
pub mod Backoff
pub mod Resources
pub mod Json
pub mod Effects
pub mod Utils
pub mod Kube
pub mod Status
pub mod Certmanager
pub mod Reconcile
pub mod Samples
pub mod Retry
pub mod Health
pub mod Controller
pub mod Provisioners
pub mod Main
pub mod Driven
