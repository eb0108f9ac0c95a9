-- ===== src/Server/Notes/Uploading.antt =====
-- What an upload of server/src/api.rs does to the store of server/src/note_store.rs.
use cachecash.Server.ApiError.{ApiError}
use cachecash.Server.NoteStore.{NoteStore}
