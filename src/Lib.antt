-- ===== src/Lib.antt =====
-- The pages of the sign-up daemon: the scripts of signup_html, which login_html shares, with
-- js/load_argon2.js, the administrators' pages of admin_html, and the daemon of src.
--
-- A click on the button runs `handleFormSubmit` (form_submit.js): the name and the password are
-- validated (validators.js), a first request asks the server for a session
-- (form_submit_session-manager.js), the password is hashed by Argon2 and SHA-256 over that session
-- (calc_passHash.js, js/load_argon2.js), a second request posts the hash, and the page shows the
-- outcome (form_submit_handle.js). The password field keeps the password in a variable and shows
-- asterisks (password.js, password_input.js, password_listener.js). The administrators' pages read
-- a number of permissions from the server and show the modules that it allows
-- (admin_html/main.js). The daemon
-- (src) takes the kind of a request from its first line, counts the tries of the client's address, and
-- then opens a session or takes a hash, with its users, sessions and counts in Redis.
--
-- Files and code:
--   Prelude: names of the libraries, tests and lists over the native numbers.
--   Js: what the scripts use of JavaScript: strings as lists of UTF-16 code units, the regular
--     expressions with a matcher for their pieces, JSON values, `JSON.stringify` and a reader for what
--     it prints, UTF-8.
--   Validators: signup_html/validators.js. Its children say what each test accepts.
--   Messages: signup_html/lang.js, env.js of both sites, `getMessages` of utils.js.
--   Page: the elements of the page, form_submit_handle.js and `handleSessionError`.
--     Page/Validation is about `validateFormInputs`, Page/Countdown and
--     Page/Timers about the intervals.
--   Cookies: signup_html/cookie_get.js; Cookies/Lookup compares it with a printed list.
--   Argon2: `argon2_calc` of js/load_argon2.js; Argon2/Loader its loader.
--   App: the globals of a page (a record), the world outside (a record of functions) and a request.
--   PassHash: signup_html/calc_passHash.js, `sha256` of utils.js and `jsonGetHexLen`.
--   Session: form_submit_session-manager.js and form_submit_get_or_create_session.js.
--   Submit: signup_html/form_submit.js. Submit/Outcome is about the page, Submit/Requests about the
--     requests, Submit/Accepted about the way from the click to the success.
--   Admin: admin_html/main.js, with Admin/Api for what follows the answers and the chain of index.html,
--     and Admin/Requests for `fetchWithTimeout` and the error box.
--   Password: password.js, password_input.js, password_listener.js, ui_update.js and the clear
--     button of ui_listener.js. Password/Rendering is about what the field shows, Password/Keys and
--     Password/Typing compare the field with a plain one.
--   Ui: ui.js, the listeners of ui_listener.js for the language and the user name, and the order in
--     which form.js starts the page. Ui/Labels is about the labels.
--   Overlap: handleFormSubmit in pieces, with the click and the Enter key of form.js. Overlap/Steps
--     and Overlap/Finish let them interleave.
--   Scripts: the order of the scripts in index.html, the placeholders of form_submit_utils.js and
--     form_submit_validation.js (Scripts/Placeholders) and `getCookie` of form.js.
--   TestPage: signup_html/t2/sTest2.js. TestPage/Agrees compares it with calc_passHash.js.
--   Daemon: the C daemon of src. Daemon/Guards and Daemon/Request are http_utils.c and http_parser.c,
--     Daemon/Cookies cookie_extract.c, Daemon/Hash calc_hash_passwd_argon.c and calc_hash_for_login.c,
--     Daemon/Redis redis.c and the redis_*.c calls with their errors as values (Daemon/Redis/Actions), Daemon/Handler
--     redis_check_ip.c, sess_handle_new_request.c and http_server_main_loop_handler.c,
--     Daemon/RequestLine check_post_type_path.c, Daemon/Server http_get_client_ip.c and the loop of
--     http_server_main_loop.c on what was received, Daemon/Response send_response.c and
--     send_response_sess.c. Daemon/Names,
--     Daemon/Accepts, Daemon/Agrees and Daemon/Login compare the daemon with the pages, Daemon/Handler/Safety
--     and Daemon/Handler/Limits are about what it lets through. Daemon/Store is an abstract store with
--     what Redis promises of it; Daemon/Store/Calls, Daemon/Store/Commands and Daemon/Store/Writes say what the
--     redis_*.c calls do to it, Daemon/Accounts what whole requests do (Requests and Submits from the
--     check of the address on, Protocol and Visits with it, Journey, Lockout and Runs for several requests,
--     Posts with the texts of the pages and what Library relies on of the JSON library).
--   Tests: the page, server and administrator of the examples.
--
-- A handler takes the globals and gives a result with the new globals. The `await` of a request is
-- answered by `World.fetch`, a function of the number of the request and the request; the user may
-- type at the first `await`. An exception of the source is a `none` that the caller's `catch`
-- branch takes. Text is a list of UTF-16 code units. The recursions on fuel are `digits` for
-- numerals, whose fuel is one more than the number, and the reader's `read_members`, whose fuel is the
-- length of the text; both are proved enough by `read_object-stringify`. Matching of expressions recurs on the text.
--
-- Code that is not in the repository is a parameter: the server, the user's typing, `JSON.parse`,
-- `crypto.subtle.digest`, the functions of the WebAssembly module of Argon2, and in Admin/Api the
-- conversions of the language that apply to values of the server, in Password/Keys what the browser
-- does to the field before it fires `input`, in Ui `toLowerCase` and `execCommand`, in TestPage
-- `crypto.getRandomValues`. Where a theorem needs more, it
-- says so: `IsDigest` (a SHA-256 has 32 bytes) and `IsReady` (Argon2 gets its memory and
-- accepts a salt of 8 bytes and more). Elements that a page may lack are options in Page; the password field's elements are taken
-- to be there, as they are on both pages. Logging to the console is left out.
--
-- In Overlap the reading of an answer's text is a piece of its own; the digests, which are awaited too,
-- are not. Elsewhere a handler runs as a whole.
--
-- An exception of the WebAssembly module, of an allocation or of the hash, leads to the `catch` of
-- `argon2_calc`, which frees nothing. Whether it throws depends on the arguments alone.
--
-- In Daemon the state is that of the Redis server and of the thread's connection; Redis, its client, the
-- JSON library, Argon2 and SHA-256 are parameters, `SameLibraries` says that the browser and the server
-- compute the same hashes. The random numbers are an argument, as are the address of the socket and the text that `%s` makes of the pointer to the address.
-- A request is what one `read` gives, its first 1024 bytes.
-- One request is served at a time: what the threads share is not modelled. A C string is a list of bytes
-- without the character 0. `IsRedis` is what Daemon/Store and Daemon/Accounts rely on: that Redis is
-- reached and lets the daemon in, and that each command does to a store what its documentation says, for
-- keys and values that are not empty and without spaces and percent signs, which redisCommand reads.
-- What Redis counts is a natural number: none of the commands used answers a negative one. Expiry
-- times are left out of that store: its theorems are about the time before they pass. `ReadsObjects` says that the JSON
-- library reads plain objects as the reader of Js/Json does. The tests for null pointers that no call
-- makes and the debug output are left out.
--
-- Not modelled: the daemon's sockets, threads, options and random numbers, redis_store.c, which
-- nothing calls, the memory options of the WebAssembly module, the style sheet that
-- form.js adds, the inline scripts of the module pages of admin_html, vendored code.
pub mod Prelude
pub mod Js
pub mod Validators
pub mod Messages
pub mod Page
pub mod Cookies
pub mod Daemon
pub mod Argon2
pub mod App
pub mod PassHash
pub mod Session
pub mod Submit
pub mod Scripts
pub mod Admin
pub mod Password
pub mod Ui
pub mod Overlap
pub mod TestPage
pub mod Tests
