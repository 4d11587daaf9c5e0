-- ===== src/Lib.antt =====
-- Verification of the Ranger Incident Management System server, the program that keeps the incidents and
-- the incident reports of an event, for people who are let in by access lists.
--
-- A request reaches the program with a token in its header, or with a session. The authentication
-- provider finds the user, looks up the access lists of the event in the data store, and lets the
-- request through if the user has one of the required authorizations. The request's handler then calls
-- methods of the data store, each of which runs SQL statements on one connection.
--
-- Files:
-- * Auth/Authorization, Auth/Claims, Auth/Acl, Auth/Provider model src/ims/auth/_provider.py: the class
--   Authorization is a record of flags; JSONWebTokenClaims is Claims, whose `validate` is the method's;
--   _matchACL is match_acl; authorizationsForUser, checkAuthentication, authenticateRequest,
--   authorizeRequest, authorizeRequestForIncidentReport, credentialsForUser and verifyPassword are
--   functions of the same name in snake case, over a Request that holds what has been attached to it.
--   Exceptions are the errors of a Result. The token library is the parameter Jwt, which tells a wrong
--   signature from all else that it raises; the check of a password's hash is a parameter of
--   verify_password.
-- * Model, Model/Time, Model/Text, Model/Build and Model/Ranger model src/ims/model/: incidents,
--   reports, entries, addresses, Rangers, access lists, the converters of the classes, and
--   `normalizeDateTime`. A time is a whole number of seconds and a number of microseconds.
-- * Store/Tables holds the tables of src/ims/store/sqlite/schema/ with the columns that the queries
--   name; Store/Statements has one function for each statement of src/ims/store/sqlite/_queries.py, with
--   the constraints of the schema that it can meet: primary keys, foreign keys and the columns that may
--   not be null.
-- * Store/Transactions models runInteraction, runQuery and runOperation of
--   src/ims/store/sqlite/_store.py: a connection holds the database as it was committed and as the open
--   transaction has made it. A failed interaction rolls back to what was committed.
-- * Store/Values, Store/Access, Store/Entries, Store/Incidents, Store/Reports and Store/Fetch model the
--   methods of DatabaseStore in src/ims/store/_db.py, under the methods' names in snake case. The
--   clock's `now()` is an argument.
-- * Store/Calls is the type of the calls of these methods, and performs a sequence of them; Store/Keeps
--   has the rules by which a property of the database is shown to outlive every call; Store/Audit and
--   Store/Links use them for two such properties. Store/Abstract is the store of incidents as its users
--   may think of it, with the entries of an incident in no order. Store/Numbers is about new numbers and
--   IDs, Store/Rollback about what an error takes back; the files below Store/Incidents, Store/Reports,
--   Store/Entries and Store/Access are about the methods of these.
-- * Store/Schema models the upgrade of the schema, DatabaseManager in src/ims/store/_db.py, over a store
--   that is a parameter: its files and what they do to the version.
-- * Api/Server, Api/Incidents and Api/Admin model the handlers of src/ims/application/_api.py that edit
--   incidents, incident reports, access lists, events, incident types and streets, as sequences of calls
--   of the store that may end early with a reply or an exception; Api/Reading has those that read
--   incidents and incident reports, up to the rendering of JSON, and Api/Login the one that issues
--   tokens, over a directory of users that is a parameter. The bodies of requests have been parsed.
--   Api/New has those that create incidents and incident reports: New/Body is what they make of the JSON
--   of the body, New/Typed and New/Decoded are about the entries, New/Effect and New/ReportEffect about
--   the whole handlers. Api/Listing has the handlers that list Rangers, types, events, access lists and
--   streets. Api/Router models the router of src/ims/application/_klein.py: the check for a user before
--   a handler, and the responses to what a handler raises.
-- * Directory models src/ims/directory/: RangerDirectory over Directory/Dictionary, Python's
--   dictionaries; Directory/Indexed, Directory/Rangers and Directory/Lookup are about what it finds.
--   Directory/Password models hashPassword and verifyPassword over a hash function that is a parameter;
--   Directory/File the directory that is read from a file, whose YAML has been parsed;
--   Directory/Clubhouse the one that is read from another system's database, whose answers are given for
--   each try.
-- * Codec models src/ims/model/json/: Codec/Json has JSON values and Python's operations on them,
--   Codec/Converter the library that converts by types, as the parameter Converter with what the code
--   relies on in IsConverter, and `deserialize`'s steps; Codec/Values, Codec/Places, Codec/Incidents and
--   Codec/Rangers have a function `…_json` for each serializer and `…_of_json` for each deserializer.
-- * EventSource models src/ims/application/_eventsource.py, the observer that tells browsers of changes:
--   EventSource/Latest and EventSource/History are about the events that it keeps, EventSource/Delivery
--   about what a listener is sent, and EventSource/Reconnect about one that comes back. The observer
--   hears all that is logged, its own messages too, and counts them, as src/ims/application/_main.py adds it
--   to the global log publisher.
-- * Web models src/ims/application/_auth.py and _web.py: the login form, what it leaves in the session
--   (Web/Session), and the pages with the rights that they ask for (Web/Guarded).
-- * Text holds the operations on texts that Python has and the program uses; Prelude holds equality
--   tests and lemmas on lists.
-- * Tests has concrete users, tokens, times and databases at which the theorems apply.
--
-- Bounds: SQLite refuses a number above 2^63 - 1 with an OverflowError, which the statements check
-- before they do anything else. Three functions count on fuel: `Text.show`, on the number itself plus
-- one, which is more than its digits; the loop of an upgrade, on the latest version, since each round
-- raises the version or ends; and the call for the clubhouse's personnel, which calls itself once at
-- most, so that two are enough. All others are structurally recursive.
--
-- What is not modelled: the logging, but for what the event source's observer logs and is told of; the float that a time is kept as, which is precise enough for
-- hundredths of seconds; the internal IDs of events and incident types, which no query shows; the JSON
-- forms of whole events; negative numbers and fractions in JSON; calls of the clubhouse's directory that
-- overlap, and its pool of connections; the MySQL store, the command line and the rendering of pages.
pub mod Prelude
pub mod Text
pub mod Auth
pub mod Model
pub mod Store
pub mod Tests
pub mod Codec
pub mod EventSource
pub mod Directory
pub mod Web
pub mod Api
