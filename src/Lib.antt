-- ===== src/Lib.antt =====
-- A model of remotemoe, which routes names to the SSH sessions of its users, and what holds of it.
--
-- A session that forwards a port comes online in the router: its name, <hash>.<hostname>, leads to
-- it as a host. Its user adds other names, which lead to that name. The HTTP proxy, and direct-tcpip
-- requests of other sessions, dial a name through the router and end in a channel of a session.
--
-- Files:
--   Prelude      shared names, Boolean tests, lists
--   Text, Dict   strings as lists of bytes, strings.Fields and TrimSpace (Text.Fields), and maps with
--                string keys as association lists
--   Files        path.Join of Go's package path
--   Net          SplitHostPort and JoinHostPort of Go's package net (Net), the round trip
--                (Net.RoundTrip), the ports that a split yields (Net.Shape), %d and ParseUint
--                (Net.Decimal)
--   Route        routertwo/host.go, routertwo/namedroute.go, routertwo/intermediate.go
--   Disk         Router.store and Router.unlink of routertwo/router.go
--   Router       routertwo/router.go: the state, begin, exchange, index, reduceIndex, Find, Exists and
--                Names (Router); Online, Offline, AddName and RemoveName (Router.Calls); RemoveNames
--                (Router.Sweep); the three DialContext methods (Router.Dial); NewRouter (Router.Load);
--                histories of calls (Router.History)
--                Proofs: what each call does to the routes (Router.Effects, Router.Effects.Names,
--                Router.SweepLaws), to the index (Router.IndexLaws, Router.Indexes), to the files (Router.Persist), what it
--                answers (Router.Answers, Router.Emptied), whole histories (Router.History.Valid,
--                Router.Ownership), the files after a history (Router.Saved,
--                Router.History.Saved), dials (Router.DialLaws, Router.DialEnds), a restart (Router.Restart,
--                Router.History.Restarted, Router.History.Outlives), what goes wrong (Router.Faults)
--                and the locks (Router.Locks)
--                Router.Spec states what the router promises, as a registry that maps a name to a
--                session or to its owner: one call (Router.Spec.Single, Router.Spec.Gone,
--                Router.Spec.All) and whole
--                histories (Router.Spec.Refines)
--   Services     services/services.go
--   Session      ssh/session.go and ssh/msgs.go: the state and the idle timer (Session, Session.Idle),
--                handleRequests, registerOnce and informForward (Session.Requests), DialContext, To
--                and acceptForwardRequest (Session.Dials), handleChannels, KeepAlive, Replaced and the
--                end of Handle (Session.Lifetime), a channel that is not answered (Session.Lifetime.Waits); fingerprintIsh of ssh/defaultconfig.go
--                (Session.Fingerprint)
--   Console      ssh/console.go: the completion (Console.Completion), the requests of a session channel
--                (Console.Channel), the goroutine that executes and prints (Console.Loop), and the
--                messages between the handlers of a session and its consoles (Console.Loop.Talk,
--                Console.Loop.Messages)
--   Commands     ssh/command/host.go, ssh/command/host/add.go, remove.go and removeall.go; serviceKeys
--                and joinDigits of ssh/command/autossh.go (Commands.Ports); ssh/command/access.go
--                (Commands.Access), how a browser and ssh read what it prints
--                (Commands.Access.Reading, Commands.Access.Reading.Laws), and where that leads (Commands.Access.Urls,
--                Commands.Access.Jumps), also after a restart (Commands.Access.Restarts);
--                ssh/command/autossh.go, unitfile.go and forwards.go (Commands.Snippets)
--   Shell        ssh/defaultcmd.go and the lines of ssh/console.go that execute a line: the tree of the
--                commands (Shell.Tree), CommandReset (Shell.Reset), the texts of
--                ssh/command/firsttime.go, version.go, whoami.go and close.go (Shell.Texts), lines of
--                arguments one after the other (Shell.Run)
--                Proofs: the calls of the router that lines make (Shell.Calls), what these can change
--                (Shell.Callers, Shell.Owned, Shell.Safe), and a name added over ssh (Shell.Typed)
--   Server       ssh/server.go, and the configuration in ssh/defaultconfig.go
--   System       sessions that come, serve requests and lines, and go, over one router: the step relation
--                (System), what a request does (System.Requests), where hosts lead (System.Live,
--                System.Kept, System.Steps), and a request that comes too late (System.Late)
--   Proxy        http/proxy.go: the director (Proxy), the transport, and NewServer and withLocalAddr of
--                http/server.go (Proxy.Server)
--   Startup      main.go, acmeCache of http/server.go, and services/server.go
--   Tests        the theorems at concrete inputs
--
-- State and time. The router is one record: the two tables, which of them is active, the index of
-- names by owner, and the files of its directory. Calls hold the edit lock from begin to finish, so
-- they follow one another, and a history is a list of calls. The locks themselves, with readers beside
-- an editor, are a step relation of their own (Router.Locks). What a call meets outside (clock, failing
-- file operations) is its argument `Env`. Pointers that the code compares are numbers: the `id` of a session and the `ref` of
-- a named route. A history from an empty router is well formed if names of sessions are not added as
-- names and RemoveNames can remove the file of the first name; Router.Faults shows what happens
-- otherwise.
--
-- Fuel. `dial` counts the calls of Router.DialContext that lie in one another: one for a host, and
-- two for a name, whose owner is a host. Printing a number takes one round for each digit, of
-- which n has at most n + 1. Where Go's type is uint32, the bound is a hypothesis or a test.
--
-- Parameters. The lower case of letters outside of ASCII and the spaces outside of ASCII, the colours
-- of messages, the name of the server, whether a client opens a channel, or does
-- not answer at all; the commands of package cobra and what
-- its Find finds; the function that its Execute calls for the arguments of a line, and what
-- this makes of the commands and their flags, and what Set of package pflag makes of a text; the hash of a key, the form that is
-- hashed, and the texts of a key; NewServerConn of golang.org/x/crypto/ssh, which tells the permissions of
-- a connection. strings.ToLower, Fields and TrimSpace are written out for ASCII.
--
-- Time and goroutines. The messages of a session are a list of at most 50. The handler of requests is
-- modelled alone, as with a client without a terminal, where a send to a full channel waits for ever;
-- with consoles, sends, receives and prints are a step relation (Console.Loop.Talk). What the select of a
-- console finds is its list of events. Timers do not count: an event tells that one runs out.
--
-- The commands of a console have from the beginning the flags that cobra gives them; its command `help`
-- comes into their tree if Execute, a parameter, adds it. A panic of a command ends the
-- program, so it is kept in the state of a console.
--
-- In System, the goroutines of a session that serve requests and lines may outlive its Handle, so a
-- session stays, with what it had registered by then; System.Late shows what a request does that is served
-- after that.
--
-- Not modelled. The handshake of SSH and the certificates of autocert, the accept loops of net/http, and
-- the reverse proxy around its director and its transport, which are libraries; the methods of
-- ssh/channelconn.go, which return nil; the copying of data between connections; the line editor of the
-- terminal.
mod Prelude
pub mod Text
pub mod Dict
pub mod Files
pub mod Route
pub mod Disk
pub mod Net
pub mod Router
pub mod Services
pub mod Session
pub mod Shell
pub mod System
pub mod Server
pub mod Commands
pub mod Proxy
pub mod Console
pub mod Startup
mod Tests
