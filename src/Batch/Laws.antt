-- ===== src/Batch/Laws.antt =====
-- core/batch_operations.go: what the operations of a batch ask of the disk, and how a chain of calls
-- has ended.
use mcp_filesystem_go_ultra.Common.{
  ℕ, zero, suc, ◌≡◌, ◌⊎◌, inl, inr, refl, ap, Bool, true, false, Option, none, some, Bytes,
  bytes_eq, if◌then◌else◌, Result, ok, err,
}
use mcp_filesystem_go_ultra.Common.Int.{ℤ, pos}
use mcp_filesystem_go_ultra.Batch.{
  OperationType, write, edit, search_and_replace, move, delete, create_dir, copy, extract, other,
  FileOperation, OperationError, io_error, Disk, Stat, found, missing, unreadable,
}
use mcp_filesystem_go_ultra.Batch.Operation.{
  Outcome, then_on, with_file, finish_replace, finish, execute_extract,
}

-- The same files can be read, with the same contents.
unfoldable pub AreSameFiles : {W : Type 0} → Disk W → W → W → Type 0
AreSameFiles disk v w = (p : Bytes) → disk.read_file p v ≡ disk.read_file p w

-- What a call that succeeds does to the files that can be read, where different paths name
-- different files: it changes what it names and no other. Nothing is asked of a call that fails, and
-- no call has to succeed.
pub record DiskLaws {W : Type 0} (disk : Disk W) : Type 0 where
  pub write_reads :
      (p c : Bytes) (w : W)
      → (disk.write_file p c w).0 ≡ true
      → (q : Bytes)
      → disk.read_file q (disk.write_file p c w).1
        ≡ (if bytes_eq p q then some c else disk.read_file q w)
  pub atomic_write_others :
      (p c : Bytes) (w : W)
      → (disk.atomic_write_file p c w).0 ≡ true
      → (q : Bytes) → bytes_eq p q ≡ false
      → disk.read_file q (disk.atomic_write_file p c w).1 ≡ disk.read_file q w
  pub copy_others :
      (p t : Bytes) (w : W)
      → (disk.copy_file p t w).0 ≡ true
      → (q : Bytes) → bytes_eq t q ≡ false
      → disk.read_file q (disk.copy_file p t w).1 ≡ disk.read_file q w
  pub remove_reads :
      (p : Bytes) (w : W)
      → (disk.remove p w).0 ≡ true
      → (q : Bytes)
      → disk.read_file q (disk.remove p w).1 ≡ (if bytes_eq p q then none else disk.read_file q w)
  pub rename_reads :
      (p t c : Bytes) (w : W)
      → disk.read_file p w ≡ some c
      → disk.read_file t w ≡ none
      → (disk.rename p t w).0 ≡ true
      → (q : Bytes)
      → disk.read_file q (disk.rename p t w).1
        ≡ (if bytes_eq t q then some c else if bytes_eq p q then none else disk.read_file q w)
  pub mkdir_reads :
      (p : Bytes) (w : W)
      → (disk.mkdir_all p w).0 ≡ true
      → AreSameFiles disk (disk.mkdir_all p w).1 w × (disk.read_file p w ≡ none)
  pub cache_reads : (p : Bytes) (w : W) → AreSameFiles disk (disk.invalidate_file_read_cache p w) w
  pub replace_reads :
      (p old new : Bytes) (w : W) (n : ℕ)
      → (disk.search_and_replace_in_file p old new w).0 ≡ some (suc n)
      → ((c : Bytes) × (disk.read_file p w ≡ some c))
        × ((q : Bytes)
            → bytes_eq p q ≡ false
            → disk.read_file q (disk.search_and_replace_in_file p old new w).1 ≡ disk.read_file q w)

-- No hook changes a file, as where there are no hooks.
pub record HooksKeepFiles {W : Type 0} (disk : Disk W) : Type 0 where
  pub pre_hook_reads : (op : FileOperation) (w : W) → AreSameFiles disk (disk.pre_hook op w).1 w
  pub post_hook_reads : (op : FileOperation) (w : W) → AreSameFiles disk (disk.post_hook op w) w

-- The call of the disk that an operation makes changes no file where it fails; for an extraction,
-- which makes two, all of it.
unfoldable pub FailuresKeepFiles :
    {W : Type 0} → Disk W → OperationType → FileOperation → W → Type 0
FailuresKeepFiles disk write op w =
    (disk.atomic_write_file op.path op.content w).0 ≡ false
    → AreSameFiles disk (disk.atomic_write_file op.path op.content w).1 w
FailuresKeepFiles disk edit op w =
    (final : Bytes)
    → (disk.write_file op.path final w).0 ≡ false
    → AreSameFiles disk (disk.write_file op.path final w).1 w
FailuresKeepFiles disk search_and_replace op w =
    ((disk.search_and_replace_in_file op.path op.old_text op.new_text w).0 ≡ none)
      ⊎ ((disk.search_and_replace_in_file op.path op.old_text op.new_text w).0 ≡ some 0)
    → AreSameFiles disk (disk.search_and_replace_in_file op.path op.old_text op.new_text w).1 w
FailuresKeepFiles disk move op w =
    (disk.rename op.source op.destination w).0 ≡ false
    → AreSameFiles disk (disk.rename op.source op.destination w).1 w
FailuresKeepFiles disk copy op w =
    (disk.copy_file op.source op.destination w).0 ≡ false
    → AreSameFiles disk (disk.copy_file op.source op.destination w).1 w
FailuresKeepFiles disk delete op w =
    (disk.remove op.path w).0 ≡ false → AreSameFiles disk (disk.remove op.path w).1 w
FailuresKeepFiles disk create_dir op w =
    (disk.mkdir_all op.path w).0 ≡ false → AreSameFiles disk (disk.mkdir_all op.path w).1 w
FailuresKeepFiles {W = W} disk extract op w =
    (x : OperationError) (w' : W) → execute_extract disk op w ≡ (err x, w') → AreSameFiles disk w' w
FailuresKeepFiles disk (other name) op w = Unit

-- The call by which a file is put back succeeds.
abbrev pub put_back_works : {W : Type 0} → Disk W → Bool → Bytes → Bytes → W → Bool
put_back_works disk true path content w = (disk.remove path w).0
put_back_works disk false path content w = (disk.write_file path content w).0

-- Inversion of a call that is followed by others.
pub then_on-eq-ok :
    {W : Type 0} (call : Bool × W) (e : OperationError) (next : W → Outcome W) (b : ℤ) (w : W)
    → then_on call e next ≡ (ok b, w)
    → (call.0 ≡ true) × (next call.1 ≡ (ok b, w))
then_on-eq-ok (true, v) e next b w h = (refl, h)
then_on-eq-ok (false, v) e next b w h = cc h

pub then_on-eq-err :
    {W : Type 0} (call : Bool × W) (e : OperationError) (next : W → Outcome W) (x : OperationError)
    (w : W)
    → then_on call e next ≡ (err x, w)
    → ((call.0 ≡ false) × (call.1 ≡ w)) ⊎ ((call.0 ≡ true) × (next call.1 ≡ (err x, w)))
then_on-eq-err (true, v) e next x w h = inr (refl, h)
then_on-eq-err (false, v) e next x w h = inl (refl, cc h)

pub Result-cases :
    {E A : Type 0} (r : Result E A) → ((e : E) × (r ≡ err e)) ⊎ ((a : A) × (r ≡ ok a))
Result-cases (ok a) = inr (a, refl)
Result-cases (err e) = inl (e, refl)

module _ {W : Type 0} (disk : Disk W) where
  pub finish-eq-ok :
      (call : Bool × W) (e : OperationError) (op : FileOperation) (n b : ℤ) (w : W)
      → then_on call e (finish disk op n) ≡ (ok b, w)
      → (call.0 ≡ true) × (disk.post_hook op call.1 ≡ w)
  finish-eq-ok call e op n b w h =
      let (called, rest) = then_on-eq-ok call e (finish disk op n) b w h in
      (called, ap (λ x. x.1) rest)

  pub finish-eq-err :
      (call : Bool × W) (e : OperationError) (op : FileOperation) (n : ℤ) (x : OperationError)
      (w : W)
      → then_on call e (finish disk op n) ≡ (err x, w)
      → (call.0 ≡ false) × (call.1 ≡ w)
  finish-eq-err (true, v) e op n x w h = absurd (cc h)
  finish-eq-err (false, v) e op n x w h = (refl, ap (λ y. y.1) h)

  pub with_file-eq-ok :
      (op : FileOperation) (st : Stat) (call : W → Bool × W) (v : W) (b : ℤ) (w : W)
      → with_file disk op st call v ≡ (ok b, w)
      → ((call v).0 ≡ true) × (disk.post_hook op (call v).1 ≡ w)
  with_file-eq-ok op (found n) call v b w h = finish-eq-ok (call v) io_error op (pos n) b w h
  with_file-eq-ok op missing call v b w h = cc h
  with_file-eq-ok op unreadable call v b w h = cc h

  pub with_file-eq-err :
      (op : FileOperation) (st : Stat) (call : W → Bool × W) (v : W) (x : OperationError) (w : W)
      → with_file disk op st call v ≡ (err x, w)
      → (v ≡ w) ⊎ (((call v).0 ≡ false) × ((call v).1 ≡ w))
  with_file-eq-err op (found n) call v x w h =
      inr (finish-eq-err (call v) io_error op (pos n) x w h)
  with_file-eq-err op missing call v x w h = inl (ap (λ y. y.1) h)
  with_file-eq-err op unreadable call v x w h = inl (ap (λ y. y.1) h)

  pub finish_replace-eq-ok :
      (op : FileOperation) (before : ℕ) (call : Option ℕ × W) (b : ℤ) (w : W)
      → finish_replace disk op before call ≡ (ok b, w)
      → (n : ℕ) × (call.0 ≡ some (suc n)) × (disk.post_hook op call.1 ≡ w)
  unfolding finish_replace
  finish_replace-eq-ok op before (none, v) b w h = absurd (cc h)
  finish_replace-eq-ok op before (some zero, v) b w h = absurd (cc h)
  finish_replace-eq-ok op before (some (suc n), v) b w h = (n, refl, ap (λ y. y.1) h)

  pub finish_replace-eq-err :
      (op : FileOperation) (before : ℕ) (call : Option ℕ × W) (x : OperationError) (w : W)
      → finish_replace disk op before call ≡ (err x, w)
      → ((call.0 ≡ none) ⊎ (call.0 ≡ some 0)) × (call.1 ≡ w)
  unfolding finish_replace
  finish_replace-eq-err op before (none, v) x w h = (inl refl, ap (λ y. y.1) h)
  finish_replace-eq-err op before (some zero, v) x w h = (inr refl, ap (λ y. y.1) h)
  finish_replace-eq-err op before (some (suc n), v) x w h = absurd (cc h)
