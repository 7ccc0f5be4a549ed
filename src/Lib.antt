-- ===== src/Lib.antt =====
-- MQTT Trust Gateway: the administration server of the directory admin-web, which registers devices,
-- issues and revokes their certificates, and writes the access list and the revocation policy that the
-- MQTT broker follows.
--
-- The parts, and the code that each file models:
-- - Db, Db/Audit: the saved document and the audit table of admin-web/src/db.js. A field that `loadDb`
--   fills in with a default has it from the start. A device whose identifier is no text, which two of
--   the routes let in, stands apart from the others. A time is a number of milliseconds.
-- - State: what the routes act on: the document, the broker's files, the audit table, the revocation
--   list, the serial number of the authority and the private keys in memory.
-- - Broker: `syncBroker`, `stageBroker`, `submitBrokerRevision` and `applyBrokerChanges` of
--   admin-web/src/services/certificate-service.js.
-- - Keys: the one-time delivery of private keys in the same file.
-- - Registry: the routes under /api/devices of admin-web/src/routes/certificate-routes.js, and
--   admin-web/src/services/identity-service.js.
-- - Certificates: the certificate routes of certificate-routes.js, with `signDeviceCsr`,
--   `renewDeviceCertificate` and their helpers in certificate-service.js.
--   Certificates/Import is `importClientCertificate`, Certificates/Authorities the authorities that are
--   trusted, and Certificates/Pem the blocks of a text.
-- - Requests: one request of those routes after the other. `exclusive` of db.js queues them, so that
--   the gateway's history is a list of requests; each carries its clock reading and its user.
-- - Grants: admin-web/src/sensitive-grants.js.
-- - Accounts: admin-web/src/routes/auth-routes.js, over Sessions and Reauth. Accounts/Machine is the
--   abstract machine of accounts, Accounts/Views what a document is in it, and the files up to
--   Accounts/Steps show each request to be a step of it. Accounts/Opening, Accounts/Grounds and
--   Accounts/Fresh follow the sessions.
-- - Sessions: admin-web/src/auth.js (its cookies in Sessions/Cookies), with
--   `rotateAfterAuthenticationChange` of admin-web/src/reauth.js.
-- - Reauth: admin-web/src/totp.js, reauth.js (Reauth/Operations), and the passkey list of
--   admin-web/src/passkeys.js.
-- - Traffic: admin-web/src/services/traffic-metrics.js and traffic-store.js.
-- - Mqtt: admin-web/src/services/mqtt-service.js, which feeds Traffic, and the routes of
--   admin-web/src/routes/mqtt-routes.js (Mqtt/Routes).
-- - Migrations: admin-web/src/migrations/index.js.
-- - Releases: versions, the choice of a release, its compatibility, its signed manifest and the cache in
--   admin-web/src/services/system-updates.js (the state of the updater is a `Controller`).
-- - Preferences: admin-web/src/services/update-preferences.js.
-- - Presentation: admin-web/shared/presentation-preferences.js, and the names of the presets in
--   admin-web/shared/theme-presets.js.
-- - Guard: admin-web/src/sensitive-access.js, over Sessions and Grants.
-- - Reveal: admin-web/src/routes/sensitive-routes.js, over Guard, Grants and Reauth.
-- - Perimeter: the checks before every route in admin-web/src/server.js.
-- - Base: lists, texts, dictionaries as association lists in insertion order, and results of code that
--   throws, where an error without a status has the status 500 of the error handler.
--
-- A function of the source that changes state takes it and returns it. What is not in the
-- repository is a parameter: OpenSSL and the X.509 parser (`Openssl`, `Pki`, `Reader`), SHA-256
-- (the digest or the function is an argument), the Ed25519 keys and the parser of manifests
-- (`Signing`), random tokens and identifiers (`uuid`), the check of a code, of a password and of a
-- passkey's answer (`Checks`, `Packages`), the MQTT client and `Buffer` (`Buffers`), and the lower
-- case of a text. A request reads the clock once. The length of a text counts code points, where
-- the source counts UTF-16 units. A message into which the source puts a value stands without it.
-- An upgrade's search is by recursion on fuel; the fuel given is the distance from the version to
-- the target, which is enough since every migration on the path goes up. Before the first half
-- minute of 1970 is over, the step before the present one is negative in the source and zero here.
--
-- Not modelled: requests that overlap since a client disconnected, which ends its turn in the
-- queue, the making of the local authority at the first start, the service certificates of the
-- broker, the routes that only read, the route that keeps an account's time zone and presentation,
-- the list of the releases that is fetched, the updater, the browser interface, logs and status
-- pages, and the wiring of the HTTP server.
pub mod Base
pub mod Db
pub mod State
pub mod Accounts
pub mod Broker
pub mod Registry
pub mod Certificates
pub mod Requests
pub mod Keys
pub mod Grants
pub mod Traffic
pub mod Mqtt
pub mod Sessions
pub mod Reauth
pub mod Migrations
pub mod Releases
pub mod Guard
pub mod Preferences
pub mod Presentation
pub mod Reveal
pub mod Perimeter
