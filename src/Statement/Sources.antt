-- ===== src/Statement/Sources.antt =====
-- server/services/statementControlService.ts, `storeSourceFile` and `readSourceFileBytes`: the bytes of
-- a file as they were sent, once for each workspace.
use finance.Prelude.{
  ℕ, Bool, ◌&&◌, Option, none, some, List, String, str_eq, length, Result, ok, err,
}
use finance.Calendar.{Date}
use finance.Database.{Client}
use finance.Statement.{StatementControlError, source_file_not_found}

-- `Buffer | Uint8Array | string`
pub data ByteInput : Type 0 where
  bytes : List ℕ → ByteInput
  text : String → ByteInput

-- What the database and the runtime supply: the client, the identifier of a new row, the time, the
-- SHA-256 of bytes, and the encoding of a text as bytes.
pub record SourceEnv : Type 1 where
  pub client : Client
  pub new_id : String
  pub now : Date
  pub digest : List ℕ → String
  pub encode : String → List ℕ

pub record StoreSourceFileInput : Type 0 where
  pub workspace_id : String
  pub filename : String
  pub media_type : String
  pub content : ByteInput
  pub uploaded_by : Option String

pub record SourceFile : Type 0 where
  pub id : String
  pub workspace_id : String
  pub filename : String
  pub media_type : String
  pub size_bytes : ℕ
  pub sha256 : String
  pub content : List ℕ
  pub uploaded_by : Option String
  pub created_at : Date

abbrev pub to_source_buffer : SourceEnv → ByteInput → List ℕ
to_source_buffer env (bytes bs) = bs
to_source_buffer env (text s) = env.encode s

abbrev pub hash_source_content : SourceEnv → ByteInput → String
hash_source_content env content = env.digest (to_source_buffer env content)

abbrev pub source_row : SourceEnv → StoreSourceFileInput → SourceFile
source_row env input = record {
  id = env.new_id;
  workspace_id = input.workspace_id;
  filename = input.filename;
  media_type = input.media_type;
  size_bytes = length (to_source_buffer env input.content);
  sha256 = hash_source_content env input.content;
  content = to_source_buffer env input.content;
  uploaded_by = input.uploaded_by;
  created_at = env.now;
}

-- `where: { workspaceId_sha256 }`
abbrev pub same_source : String → String → SourceFile → Bool
same_source workspace hash f = str_eq f.workspace_id workspace && str_eq f.sha256 hash

unfoldable pub store_source_file :
    SourceEnv → List SourceFile → StoreSourceFileInput → SourceFile × List SourceFile
store_source_file env rows input =
    env.client.upsert (same_source input.workspace_id (hash_source_content env input.content))
      (source_row env input) (λ f. f) rows

abbrev pub source_in : String → String → SourceFile → Bool
source_in id workspace f = str_eq f.id id && str_eq f.workspace_id workspace

abbrev pub content_of : Option SourceFile → Result StatementControlError (List ℕ)
content_of none = err source_file_not_found
content_of (some f) = ok f.content

unfoldable pub read_source_file_bytes :
    SourceEnv → List SourceFile → String → String → Result StatementControlError (List ℕ)
read_source_file_bytes env rows workspace id =
    content_of (env.client.find_first (source_in id workspace) rows)
