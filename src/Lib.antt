-- ===== src/Lib.antt =====
-- The Readium LCP License Server and License Status Server.
--
-- A lending license is known to two servers. The License Server (lcpserver) holds the license and its
-- rights; the License Status Server (lsdserver) holds its status document, the devices registered
-- under it and its events, and lets a reader register, return and renew, and a provider cancel,
-- revoke and extend. A return, renewal, cancellation or extension sends a PATCH request from the
-- second server to the first, so that both know the new end of the license. The License Server also
-- keeps an index of the encrypted publications with their keys; from a partial license it generates a
-- license, in which the key of the publication is encrypted with the hashed passphrase of the user, and
-- it notifies the License Status Server of it. A reader gets a fresh license through the Status Server,
-- which asks the provider for the data of the user and the License Server for the license.
--
-- Files, and the code they model:
--   Time             the instants and durations of Go's package time that the handlers use
--   Status           status/status.go: the values of a status; Status/Codec: GetStatus and SetStatus
--   License          license/license.go and license/store.go: licenses and the table `license`;
--                    License/Queries the statements of SQL, Profile, Links, Fields (the encrypted
--                    parts, with license/user_key.go) and Build (with buildLicense)
--   Index            index/index.go: contents and the table `content`
--   Transactions     transactions/transactions.go: events, devices and the table `event`
--   LicenseStatuses  license_statuses/*.go: status documents and the table `license_status`
--   Server           the environment: configuration (config/config.go), clock, databases, network,
--                    error documents (problem/problem.go); Server/Exec: handlers as actions
--   Stores           the methods of the stores, each one statement of SQL; Stores/Licenses,
--                    Stores/Contents (the index, and storage/fs.go as a list of named files)
--   LicenseServer    lcpserver/api/license.go: UpdateLicense; its children: Input (the checks and the
--                    copying of a partial license), Licenses (GetLicense, GenerateLicense),
--                    Publications (protected publications), Notify (notifyLsdServer), Lists
--                    (ListLicenses, ListLicensesForContent, LicenseCount), Contents
--                    (lcpserver/api/store.go), Routes (lcpserver/server/server.go)
--   LsdServer        lsdserver/api/license_status.go, a child for each handler or two: Document
--                    (create, get, list devices), Register, Return, Renew, Extend, Cancel, Filter
--                    (FilterLicenseStatuses), Count (LicenseCount); Links (makeLinks), Common
--                    (shared steps, updateLicense); Routes (lsdserver/server/server.go, CheckAuth
--                    of api/common_server.go); Fresh (lsdserver/api/freshlicense.go)
-- Proofs:
--   Server/Triple, Server/Keeps, Server/Views, Server/Preserves   rules for actions, one for each way
--                    to build one
--   Lifecycle        the diagram of a license's status, over all runs
--   Registry         the events and devices, over all runs
--   Agreement        the two servers' views of the end of a license
--   Renewal          the bounds of a renewal
--   Creation         the row of a new license
--   Offers           the links of a document against the handlers
--   Listing          the queries on the whole table of license statuses
--   Licensing        the licenses that are built: their keys, links and fields
--   Contents         the index behind AddContent and DeleteContent
--   Issuance         the tables of the License Server, over all its steps; Issuance/Notified the
--                    notification with the License Status Server behind it
--   Crypto           crypto/pad.go: the reader that pads; Crypto/Cbc crypto/aes_cbc.go
--   Packing          pack/pack.go (Do), xmlenc/encryption.go, and CanEncrypt of epub/epub.go;
--                    Packing/Texts texts as lists of code points, Packing/Cleartext epub/reader.go (the
--                    resources in clear), Packing/Pipeline pack/pipeline.go; Packing/Opening what a
--                    reader gets back, Packing/Sorted the search of CanEncrypt, Packing/Refusals
--                    what it refuses, Packing/Stored what
--                    a task leaves
--   Scenarios        sample data; its children apply the theorems to it
--
-- State. `World` holds the tables of both servers, and counters of what was used of the environment.
-- The n-th reading of the clock, the n-th call of a database and the n-th request on the network come
-- out as functions in `Env` say, so a theorem for every `Env` holds for every such behaviour: a call
-- of a database may fail, a request may be lost, or carried out and its answer lost. A handler is an
-- action `Exec Reply`: it ends early with a reply, as the code does with `return` after
-- `problem.Error`, and what it wrote before stays written. A run-time error of the code is the reply
-- `panic`: the middleware Recovery of negroni, which the routers install (api/common_server.go),
-- answers with 500 where nothing was written. GetFreshLicense alone may have written before: its body
-- is then the license, the error document before it and the stack behind it left out.
--
-- Numbers. Times are integers in nanoseconds, without the bounds of Go's representation; durations
-- are products of int64 and wrap around (`days_duration`), as does the device count. An integer
-- stored as a status has 64 bits: `low_digits` takes at most 64 digits, which is enough for it. The
-- loops of `fill`, `read_full` and `encrypt_blocks` run on fuel: every call of Read without io.EOF
-- gives a byte, and every block but the last holds input. A byte is a number.
--
-- Parameters. The libraries uritemplates, go-http-auth, net/url, archive/zip, encoding/base64,
-- golang.org/x/text/cases, time.Parse and AddDate, the UTF-8 code of a text, the files that AddContent
-- opens, and the signature of package sign are functions of `Env` or a part of the request; the block
-- cipher of aes.NewCipher is a record of two functions, and random bytes are functions of a counter of
-- draws; gorilla/mux is what it replies where no route matches; the CMS of a provider is a function from
-- ids of licenses to user data. A statement of SQL is a function on a list of rows; SELECT of one row
-- takes the first that matches, LIMIT of a negative number is none, as in SQLite, and a foreign key is
-- not enforced. A map of Go is a list of pairs, and is run through in its order. Requests between the
-- servers carry the right credentials.
--
-- Not modelled: JSON and HTTP headers, log messages, the titles and texts of error documents, the
-- message catalogue, the titles and profiles of links, which no code sets; requests that run at the
-- same time (a run is a sequence of requests, and a notification is a step behind the request); Ping;
-- the test mode with GetTestLicense; StoreContent, which no route calls; the deletion of input files;
-- the computation of signatures; Process and the packages of Readium and W3C, and the encryption tool,
-- which are large and stand apart from the two servers; XML, zip and flate; the S3 store, and the test
-- front end; in crypto, AES-GCM, and readers and writers that fail.
mod Prelude
pub mod Time
pub mod Status
pub mod License
pub mod Index
pub mod Transactions
pub mod LicenseStatuses
pub mod Server
pub mod Stores
pub mod LicenseServer
pub mod LsdServer
pub mod Lifecycle
pub mod Registry
pub mod Agreement
pub mod Renewal
pub mod Creation
pub mod Offers
pub mod Listing
pub mod Licensing
pub mod Contents
pub mod Issuance
pub mod Crypto
pub mod Packing
pub mod Scenarios
