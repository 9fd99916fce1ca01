-- ===== src/Lib.antt =====
-- A verification library for doka.one, a document store made of several HTTP servers. It is about
-- the search language of the document server, the SQL query made of it, the full text index, the
-- rule for passwords, the upload and download of encrypted files, the encryption, and the layer
-- over the database.
--
-- The parts, and where they stand:
--
--   Filter (document-server/src/filter). `analyse_expression` (filter/mod.rs) runs the lexer, the
--     normalizer and the parser in turn.
--     Filter.Token, Filter.Number: the tokens and errors of filter_lexer.rs; reading and printing
--       an `i32`.
--     Filter.Lexer: `lex3_with_offset` and the readers `exp_lexer_index`, `condition_lexer_index`
--       and `lopexp_lexer_index`. The shared index is passed along; the local variables are the
--       records ExpressionState, ConditionState and LopexpState; the body of each loop is a `step`
--       that says whether the loop goes on. Grammar has the token lists that come out; the modules
--       named …Phases, …Rounds and …Runs are about the runs of the three readers.
--     Filter.Normalizer: the passes `n1_…`, `n2_…` and `n3_…` of filter_normalizer.rs (N1, N2, N3).
--       `check_logical_one_direction` is a function for each direction; Backward and Forward are
--       about the two, Fixed about the pass. Wrapped is about `n1_…`: Scanned and Apart
--       about its scan of the tokens, Removed about the removals, from the last position to the
--       first.
--     Filter.Ast: FilterExpressionAST of filter_ast.rs with its printed forms (Tree), and
--       `parse_tokens` (Parser). Denotes says which tokens denote a tree; ParserRuns, ParserSound
--       and ParserTotal are about the parser.
--   Search (document-server/src/engine/generator.rs). Conditions: the map from the key of a
--     condition to its occurrence number; Columns: the SQL of one condition and of the order;
--     Query: `generate_search_sql`, with Total and Success about its outcomes. TagType is that of
--     dkdto/src/web_types.rs.
--   Fulltext (document-server/src/ft_tokenizer.rs). Tokenizer: `next_n_words`, with Steps and Chunks
--     about it; TsVector: `encrypt_tsvector`, with the single pass of OnePass.
--   Admin (admin-server/src/dk_password.rs): `valid_password`.
--   Pg (commons-pg/src). Cell and DataSet: `CellValue` and `SQLDataSet` of sql_transaction.rs, with
--     the loop over a data set (Cursor is about it); ParseQuery: the named parameters of a query, with
--     Template and Prefix about them; Transaction: the connection and the transaction of
--     sql_transaction_async.rs over the contents of a database; Atomic has the lemmas on what is
--     committed.
--   Crypto: `DkEncrypt` of dkcrypto/src/dk_crypto.rs, over dk_aes.rs and dk_chacha.rs, and `is_valid`
--     of commons-services/src/token_lib.rs. RoundTrip and Modes are about it.
--   Files (file-server/src/file_delegate.rs). An upload runs Upload (the form is read in blocks, which
--     go to `file_uploads`) and then Process (the blocks are read back, encrypted and written to
--     `file_parts`, read again, parsed and indexed; a failure is rolled back). Download reads the
--     parts, decrypts them in Slides, on the pools of Pool, and streams them with Parts. Store has the
--     tables (of admin-server/src/schema_fs.rs) and the statements on them, Environment what stands
--     behind other services. Progress, Field, Stores and Multiples are about the upload, Selected and
--     Sealed, Encrypted, Parsed, Content and Rollback about the processing, Decrypts and Download.RoundTrip about the
--     download, and Files.RoundTrip about the three together.
--   Prelude: text as lists of code points, outcomes (a value, an error, a panic, or no fuel left),
--     the operations of `Vec` that panic, tests on the native numbers, UTF-8, sorting, and calls that
--     change a state and may fail (Effects).
--
-- Errors are values, and so are panics: a subtraction of unsigned integers below zero, an index
-- out of range and `todo!()` end in `panic`. Indices do not wrap round otherwise: a text is
-- shorter than the address space. The number of a block is a `u32` that wraps round, and an `i32`
-- in the database; where it matters, a theorem asks for a form of fewer bytes than would do it.
--
-- The database is not part of the program: the record Database stands for what the driver's calls
-- document. A request may fail at any time, for any reason (`fails` says at which requests),
-- constraints included. A transaction works on a copy that its commit puts in the place of what is
-- committed; a commit that is reported to have failed may have done so too (`lands`). One call
-- runs at a time; the tasks of a download share nothing, and the task that processes an upload
-- runs to its end. The time of an upload's rows is left out. The size of a block is a parameter,
-- in the source 1 MiB.
--
-- Fuel: a loop of the lexer has one round for each character and a few more, the nesting one for
-- each character; the parser's nesting has one for each token, and each pass of `n3` one round for
-- each token. The loop that cuts a buffer into blocks has one round for each byte, and a data set
-- one for each row. Every round of the lexer's loops moves the index forward, but for the two that
-- step back and move on to the next kind of lexeme; every nesting of the parser has read a token.
--
-- From elsewhere, and therefore parameters: graphemes, upper case and words of Unicode (the record
-- Unicode, with two laws on ASCII in UnicodeLaws), `uuid8`, the keyed hash of a word, the tag
-- definitions of the database and the order in which a hash map iterates (the record Environment);
-- the ciphers, the derivation of keys and base64 (the record Ciphers, with what they promise in
-- CipherLaws and, of the drawn nonces, in Draws), and the Tika server, the document server, the
-- crates of media types and headers (with MediaLaws), and the order of a hash map (the record
-- Environment of Files). Crypto.Example has ciphers that keep the promises.
--
-- Not modelled: logging, `human_error_message`, HTTP, the checks of sessions and keys in front of the
-- handlers, the drivers of the database, the queries of the file server that only report, and the
-- other servers and clients.
pub mod Prelude
pub mod Filter
pub mod Search
pub mod Fulltext
pub mod Admin
pub mod Pg
pub mod Crypto
pub mod Files
