-- ===== src/Publish/Memory.antt =====
-- src/storage.rs, process memory, as the store of src/routes/publish.rs.
use zed_api_server_rs.Prelude.{ℕ, Bool, true, false, some, List, if◌then◌else◌, ◌≡◌}
use zed_api_server_rs.Text.{Str}
use zed_api_server_rs.ArtifactStore.{
  Blob, Outcome, done, failed, invalid_digest, is_digest, get, put_memory,
}
use zed_api_server_rs.ArtifactStore.WriteOnce.{Contents, Write, put_memory-Write, Write-Keeps}
use zed_api_server_rs.Publish.{Storage, IsStorage}

-- The process-memory store with its limit, behind the guard on the digest; it takes no aliases.
unfoldable pub memory_storage : ℕ → Storage (List (Str × Blob))
unfolding is_digest put_memory get
memory_storage max_bytes = record {
  put_verified = λ objects key blob content_type sha256.
      if is_digest sha256
      then put_memory max_bytes objects key blob
      else (failed invalid_digest, objects);
  put_public_aliases = λ objects keys blob content_type sha256. (done tt, objects);
  find = λ objects key. get key objects;
}

Write-Stores :
    {max_bytes : ℕ} {key : Str} {blob : Blob} {s t : Contents} {answer : Outcome Unit}
    → Write max_bytes key blob s answer t
    → answer ≡ done tt
    → t.view key ≡ some blob
Write-Stores (Write.stored s t absent e fits b here rest) h = here
Write-Stores (Write.kept s present) h = present
Write-Stores (Write.collided s b present differ) h = cc
Write-Stores (Write.full s absent over) h = cc
Write-Stores (Write.uncountable s absent over) h = cc

-- The process-memory store is a store as publications need it: it keeps its objects, and a write that
-- succeeds leaves its bytes under its key.
pub memory_storage-IsStorage : (max_bytes : ℕ) → IsStorage (memory_storage max_bytes)
unfolding memory_storage
memory_storage-IsStorage max_bytes = record {
  put_keeps = λ objects key blob content_type sha256 k other h.
      guarded_keeps objects key blob k other (is_digest sha256) h;
  put_stores = λ objects key blob content_type sha256 h.
      guarded_stores objects key blob (is_digest sha256) h;
  aliases_keep = λ objects keys blob content_type sha256 k other h. h;
}
  where
    guarded_keeps :
        (objects : List (Str × Blob)) (key : Str) (blob : Blob) (k : Str) (other : Blob) (b : Bool)
        → get k objects ≡ some other
        → get k
            (if b
              then put_memory max_bytes objects key blob
              else (failed invalid_digest, objects)).1
          ≡ some other
    guarded_keeps objects key blob k other true h =
        Write-Keeps (put_memory-Write max_bytes objects key blob) k other h
    guarded_keeps objects key blob k other false h = h

    guarded_stores :
        (objects : List (Str × Blob)) (key : Str) (blob : Blob) (b : Bool)
        → (if b then put_memory max_bytes objects key blob else (failed invalid_digest, objects)).0
          ≡ done tt
        → get key
            (if b
              then put_memory max_bytes objects key blob
              else (failed invalid_digest, objects)).1
          ≡ some blob
    guarded_stores objects key blob true h =
        Write-Stores (put_memory-Write max_bytes objects key blob) h
    guarded_stores objects key blob false h = cc
