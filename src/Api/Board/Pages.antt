-- ===== src/Api/Board/Pages.antt =====
-- What the gateway's own calls change of the board.
use auto_sentinel.Prelude.{String, ◌≡◌, refl, subst, Bool, true, false, Bool-cases, inl, inr}
use auto_sentinel.Prelude.Strings.{◌==◌, eq_iff}
use auto_sentinel.Effects.{Exec}
use auto_sentinel.Effects.Frame.{Respects}
use auto_sentinel.Api.Results.{Store, result_path, incoming_path}
use auto_sentinel.Api.Results.Paths.{
  report_path_of, result_path-differ, incoming_path-differ, result_path-incoming_path,
  incoming_path-result_path, report_path_of-incoming_path, report_path_of-result_path,
}
use auto_sentinel.Api.Board.{answered, opened, submitted, status_by, view, others, Disk, Unseen}

opened_status : (r i : Bool) → status_by r true ≡ opened (status_by r i)
opened_status true i = refl
opened_status false true = refl
opened_status false false = refl

module _ {S : Type 0} (store : Store S) (disk : Disk store) where
  -- A status depends on whether two files exist.
  view_of :
      (s t : S) (j : String)
      → store.exists (result_path j) t ≡ store.exists (result_path j) s
      → store.exists (incoming_path j) t ≡ store.exists (incoming_path j) s
      → view store t j ≡ view store s j
  view_of s t j h k = rw (h, k) refl

  pub Unseen-make_dir : (dir : String) → Unseen store (store.files.make_dir dir)
  Unseen-make_dir dir s j =
      view_of s (store.files.make_dir dir s).1 j (disk.made dir (result_path j) s)
        (disk.made dir (incoming_path j) s)

  pub Unseen-read_text : (path : String) → Unseen store (store.files.read_text path)
  Unseen-read_text path s j =
      view_of s (store.files.read_text path s).1 j (disk.read path (result_path j) s)
        (disk.read path (incoming_path j) s)

  pub Unseen-report :
      (stem raw : String) → Unseen store (store.files.write_text (report_path_of stem) raw)
  Unseen-report stem raw s j =
      view_of s (store.files.write_text (report_path_of stem) raw s).1 j
        (disk.elsewhere (report_path_of stem) raw (result_path j) s
          (report_path_of-result_path stem j))
        (disk.elsewhere (report_path_of stem) raw (incoming_path j) s
          (report_path_of-incoming_path stem j))

  pub view-written_result :
      (id raw : String) (s : S)
      → view store (store.files.write_text (result_path id) raw s).1 id ≡ answered
  view-written_result id raw s = rw (disk.written (result_path id) raw s) refl

  pub Respects-write_result :
      (id raw : String) → Respects (others store id) (store.files.write_text (result_path id) raw)
  Respects-write_result id raw s j h =
      view_of s (store.files.write_text (result_path id) raw s).1 j
        (disk.elsewhere (result_path id) raw (result_path j) s (result_path-differ id j h))
        (disk.elsewhere (result_path id) raw (incoming_path j) s (result_path-incoming_path id j))

  pub Respects-Unseen :
      {A : Type 0} (id : String) (m : Exec S A) → Unseen store m → Respects (others store id) m
  Respects-Unseen id m h s j e = h s j

  view-write_incoming_self :
      (id raw : String) (s : S)
      → view store (store.files.write_text (incoming_path id) raw s).1 id ≡ opened (view store s id)
  view-write_incoming_self id raw s =
      rw
        (
          disk.elsewhere (incoming_path id) raw (result_path id) s
              (incoming_path-result_path id id),
          disk.written (incoming_path id) raw s,
        )
        (opened_status (store.exists (result_path id) s) (store.exists (incoming_path id) s))

  -- The write of an alert opens its id.
  pub view-write_incoming :
      (id raw : String) (s : S) (j : String)
      → view store (store.files.write_text (incoming_path id) raw s).1 j
        ≡ submitted id (view store s) j
  view-write_incoming id raw s j = elim (Bool-cases (id == j)) [
    | inl same ↦ rw same (
        subst
          (λ k.
            view store (store.files.write_text (incoming_path id) raw s).1 k
            ≡ opened (view store s k))
          ((eq_iff id j).0 same) (view-write_incoming_self id raw s))
    | inr other ↦ rw other (
        view_of s (store.files.write_text (incoming_path id) raw s).1 j
          (disk.elsewhere (incoming_path id) raw (result_path j) s (incoming_path-result_path id j))
          (disk.elsewhere (incoming_path id) raw (incoming_path j) s
            (incoming_path-differ id j other)))
  ]
