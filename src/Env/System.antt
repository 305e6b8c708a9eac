-- ===== src/Env/System.antt =====
-- Terp_Builder/Pods/leveldb-library/include/leveldb/env.h: what the engine asks of the file system, as an interface over its
-- unknown state S and the open files H.
use terp_builder.Base.{ℕ, ◌≡◌, ◌≢◌, Option, some, List, [], ◌++◌}
use terp_builder.Slice.{Slice}
use terp_builder.Status.{Status, ok}

-- `discard` is the destructor of a WritableFile.
pub record Env (S H : Type 0) : Type 0 where
  pub new_writable_file : List ℕ → S → Status × H × S
  pub append : H → Slice → S → Status × S
  pub sync : H → S → Status × S
  pub close : H → S → Status × S
  pub discard : H → S → S
  pub delete_file : List ℕ → S → Status × S
  pub rename_file : List ℕ → List ℕ → S → Status × S

-- What the file with a name holds, by what env.h says of the calls: what a good status says of the file
-- that a call is about. A call on one file changes no other; of a failed call no more is said, so a
-- rename that fails may leave anything in its target.
pub record IsFileSystem {S H : Type 0} (env : Env S H) (contents : S → List ℕ → Option (List ℕ))
    (name_of : H → List ℕ) : Type 0 where
  pub created_name :
      (name : List ℕ) (s : S)
      → (env.new_writable_file name s).0 ≡ ok
      → name_of ((env.new_writable_file name s).1) ≡ name
  pub created :
      (name : List ℕ) (s : S)
      → (env.new_writable_file name s).0 ≡ ok
      → contents ((env.new_writable_file name s).2) name ≡ some []
  pub created_beside :
      (name other : List ℕ) (s : S)
      → other ≢ name
      → contents ((env.new_writable_file name s).2) other ≡ contents s other
  pub appended :
      (h : H) (text held : Slice) (s : S)
      → (env.append h text s).0 ≡ ok
      → contents s (name_of h) ≡ some held
      → contents ((env.append h text s).1) (name_of h) ≡ some (held ++ text)
  pub appended_beside :
      (h : H) (text : Slice) (other : List ℕ) (s : S)
      → other ≢ name_of h
      → contents ((env.append h text s).1) other ≡ contents s other
  pub synced :
      (h : H) (s : S)
      → (env.sync h s).0 ≡ ok
      → contents ((env.sync h s).1) (name_of h) ≡ contents s (name_of h)
  pub synced_beside :
      (h : H) (other : List ℕ) (s : S)
      → other ≢ name_of h
      → contents ((env.sync h s).1) other ≡ contents s other
  pub closed :
      (h : H) (s : S)
      → (env.close h s).0 ≡ ok
      → contents ((env.close h s).1) (name_of h) ≡ contents s (name_of h)
  pub closed_beside :
      (h : H) (other : List ℕ) (s : S)
      → other ≢ name_of h
      → contents ((env.close h s).1) other ≡ contents s other
  pub discarded :
      (h : H) (name : List ℕ) (s : S) → contents (env.discard h s) name ≡ contents s name
  pub deleted_beside :
      (name other : List ℕ) (s : S)
      → other ≢ name
      → contents ((env.delete_file name s).1) other ≡ contents s other
  pub renamed :
      (src target : List ℕ) (s : S)
      → (env.rename_file src target s).0 ≡ ok
      → contents ((env.rename_file src target s).1) target ≡ contents s src
