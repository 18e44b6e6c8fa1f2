-- ===== src/Api/Board.antt =====
-- What autosentinel/api promises of its jobs: a board that has a status for each id. The gateway's
-- files are a representation of it.
pub mod Pages
pub mod Runs
pub mod Answers
pub mod Refinement
pub mod Steps
pub mod Gateway
pub mod CommandLine
use auto_sentinel.Prelude.{
  String, ◌≡◌, refl, ◌∙◌, Bool, true, false, List, [], ◌∷◌, ◌++◌, if◌then◌else◌,
}
use auto_sentinel.Prelude.Strings.{◌==◌}
use auto_sentinel.Effects.{Exec, Result, ok, err}
use auto_sentinel.Effects.Frame.{Frame}
use auto_sentinel.Python.{Python}
use auto_sentinel.Api.Worker.{AlertJob}
use auto_sentinel.Api.Results.{Store, result_path, incoming_path}

-- No alert, an alert without a result, or a result.
pub data JobStatus : Type 0 where
  unknown pending answered : JobStatus

abbrev pub Board : Type 0
Board = String → JobStatus

abbrev pub opened : JobStatus → JobStatus
opened answered = answered
opened other = pending

-- An alert with the id is accepted: a result that is there stays.
abbrev pub submitted : String → Board → Board
submitted id b = λ j. if id == j then opened (b j) else b j

-- The job with the id gets its result.
abbrev pub settled : String → Board → Board
settled id b = λ j. if id == j then answered else b j

abbrev pub settled_all : List String → Board → Board
settled_all [] b = b
settled_all (id ∷ ids) b = settled_all ids (settled id b)

-- A board with the ids of the jobs that wait for a result, the oldest first.
pub record Office : Type 0 where
  pub waiting : List String
  pub board : Board

-- The id is opened, and waits last.
pub record Opens (id : String) (o : Office) (p : Office) : Type 0 where
  pub waits_last : p.waiting ≡ o.waiting ++ id ∷ []
  pub opened_only : (j : String) → p.board j ≡ submitted id o.board j

pub record Same (o : Office) (p : Office) : Type 0 where
  pub same_queue : p.waiting ≡ o.waiting
  pub same_board : (j : String) → p.board j ≡ o.board j

abbrev pub ids : List AlertJob → List String
ids [] = []
ids (job ∷ jobs) = job.job_id ∷ ids jobs

abbrev pub status_by : Bool → Bool → JobStatus
status_by true there = answered
status_by false true = pending
status_by false false = unknown

-- The board that the files stand for.
abbrev pub view : {S : Type 0} → Store S → S → Board
view store s id = status_by (store.exists (result_path id) s) (store.exists (incoming_path id) s)

-- The statuses of all jobs but one.
abbrev pub others : {S : Type 0} → Store S → String → Frame S
others {S} store id = record {
  Le = λ s t. (j : String) → (id == j) ≡ false → view store t j ≡ view store s j;
  le_refl = λ s j h. refl;
  le_trans = λ s t u h k j e. k j e ∙ h j e;
}

-- A disk that takes what is written, under the path that it is given and no other. What `mkdir` makes
-- and what is read changes no such file.
pub record Disk {S : Type 0} (store : Store S) : Type 0 where
  pub takes : (path raw : String) (s : S) → (store.files.write_text path raw s).0 ≡ ok tt
  pub written :
      (path raw : String) (s : S) → store.exists path (store.files.write_text path raw s).1 ≡ true
  pub elsewhere :
      (path raw q : String) (s : S)
      → (path == q) ≡ false
      → store.exists q (store.files.write_text path raw s).1 ≡ store.exists q s
  pub makes : (dir : String) (s : S) → (store.files.make_dir dir s).0 ≡ ok tt
  pub made :
      (dir q : String) (s : S) → store.exists q (store.files.make_dir dir s).1 ≡ store.exists q s
  pub read :
      (path q : String) (s : S) → store.exists q (store.files.read_text path s).1 ≡ store.exists q s

-- A call that changes no status.
abbrev pub Unseen : {S A : Type 0} → Store S → Exec S A → Type 0
Unseen {S} store m = (s : S) (j : String) → view store (m s).1 j ≡ view store s j

-- The job's log has the job's id for its stem.
abbrev pub IsNamed : Python → AlertJob → Type 0
IsNamed py job = py.path_stem (py.path_text job.log_path) ≡ job.job_id

abbrev pub AllNamed : Python → List AlertJob → Type 0
AllNamed py [] = Unit
AllNamed py (job ∷ jobs) = IsNamed py job × AllNamed py jobs
